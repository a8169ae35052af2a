-- ===== src/Server/Config/Sandbox.antt =====
-- How crates/server/src/config.rs reads the kind of the sandbox.
use soro_fuzz.Base.{
  ◌≡◌, refl, ap, sym, ◌∙◌, Bool, true, false, ◌&&◌, not, some, String, string_eq, ◌==◌, eq_of_beq,
  nat_beq, nat_beq_iff, arith, inl, inr, ◌↔◌, Bool-cases, Option-cases, if◌then◌else◌,
}
use Prim.Native.Char.{code}
use Prim.Native.String.append
use Prim.Native.String.{◌++◌}
use text.Mathlib.TextEquality.{Char-path}
use soro_fuzz.Base.Parse.{is_empty}
use soro_fuzz.Base.Results.{Result, ok}
use soro_fuzz.Server.Config.{
  ConfigError, SandboxKind, local, docker_exec, split_once, parse_sandbox,
}

-- The text of a kind.
abbrev pub sandbox_text : SandboxKind → String
sandbox_text local = "local"
sandbox_text (docker_exec container) = "docker-exec" ++ String.◌∷◌ ":" container

abbrev pub HasContainer : SandboxKind → Type 0
HasContainer local = Unit
HasContainer (docker_exec container) = is_empty container ≡ false

no_colon : String → Bool
no_colon String.[] = true
no_colon (String.◌∷◌ c s) = if nat_beq (code c) b':' then false else no_colon s

split_once-append :
    (a b : String) → no_colon a ≡ true → split_once (a ++ String.◌∷◌ ":" b) ≡ some (a, b)
unfolding split_once no_colon
split_once-append String.[] b h = rw (append.nil (String.◌∷◌ ":" b)) refl
split_once-append (String.◌∷◌ c a) b h = elim (Bool-cases (nat_beq (code c) b':')) [
  | inl colon ↦ ground (arith, colon, h)
  | inr other ↦
      rw (append.cons c a (String.◌∷◌ ":" b))
        (rw other (rw (split_once-append a b (ground (arith, other, h))) refl))
]

append-split_once :
    (s before after : String)
    → split_once s ≡ some (before, after)
    → s ≡ before ++ String.◌∷◌ ":" after
unfolding split_once
append-split_once String.[] before after h = cc
append-split_once (String.◌∷◌ c s) before after h = elim (Bool-cases (nat_beq (code c) b':')) [
  | inl colon ↦
      let same : some (String.[], s) ≡ some (before, after) = rw colon at h in
      let none_before : String.[] ≡ before = ground (arith, same) in
      let all_after : s ≡ after = ground (arith, same) in
      let is_colon = Char-path c ":" ((nat_beq_iff (code c) b':').0 colon) in
      rw (← none_before, ← all_after, is_colon) (sym (append.nil (String.◌∷◌ ":" s)))
  | inr other ↦ elim (Option-cases (split_once s)) [
    | inl absent ↦ ground (arith, other, absent, h)
    | inr ((b, a), found) ↦
        let same : some (String.◌∷◌ c b, a) ≡ some (before, after) = rw found at (rw other at h) in
        let first : String.◌∷◌ c b ≡ before = ground (arith, same) in
        let rest : a ≡ after = ground (arith, same) in
        rw (← first, ← rest, append.cons c b (String.◌∷◌ ":" a))
          (ap (String.◌∷◌ c) (append-split_once s b a found))
  ]
]

no_colon_exec : no_colon "docker-exec" ≡ true
unfolding no_colon
no_colon_exec = refl

printed : (k : SandboxKind) → HasContainer k → parse_sandbox (sandbox_text k) ≡ ok k
unfolding parse_sandbox
printed local h = refl
printed (docker_exec container) h =
    rw (split_once-append "docker-exec" container no_colon_exec, parse_sandbox) (rw h refl)

parsed :
    (raw : String) (k : SandboxKind)
    → parse_sandbox raw ≡ ok k
    → (raw ≡ sandbox_text k) × HasContainer k
unfolding parse_sandbox
parsed raw k h = elim (Option-cases (split_once raw)) [
  | inl absent ↦ elim (Bool-cases (raw == "local")) [
    | inl named ↦
        let same : ◌≡◌ {A = Result ConfigError SandboxKind} (ok local) (ok k) =
          rw named at (rw (absent, parse_sandbox) at h) in
        let is : local ≡ k = ground (arith, same) in rw (← is) (eq_of_beq raw "local" named, tt)
    | inr other ↦ ground (arith, absent, other, h)
  ]
  | inr ((kind, container), found) ↦
      elim (Bool-cases (kind == "docker-exec" && not (is_empty container))) [
        | inl named ↦
            let same : ◌≡◌ {A = Result ConfigError SandboxKind} (ok (docker_exec container))
                (ok k) =
              rw named at (rw (found, parse_sandbox) at h) in
            let is : docker_exec container ≡ k = ground (arith, same) in
            let is_exec : (kind == "docker-exec") ≡ true = ground (arith, named) in
            rw (← is) (
              append-split_once raw kind container found
                  ∙ ap (λ x. x ++ String.◌∷◌ ":" container) (eq_of_beq kind "docker-exec" is_exec),
              ground (arith, named),
            )
        | inr other ↦ ground (arith, found, other, h)
      ]
]

-- A text is read as a kind of sandbox, with a container's name that is not empty, exactly if it is
-- that kind's text: `local`, or `docker-exec:` with the name behind it.
pub parse_sandbox-sandbox_text :
    (raw : String) (k : SandboxKind)
    → (parse_sandbox raw ≡ ok k) ↔ ((raw ≡ sandbox_text k) × HasContainer k)
parse_sandbox-sandbox_text raw k = (λ h. parsed raw k h, λ (is, named). rw is (printed k named))
