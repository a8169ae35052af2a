-- ===== src/Server/Store/Operations/Mirror.antt =====
-- The runs and campaigns of crates/server/src/store/postgres.rs, and the relation between their
-- statuses.
use soro_fuzz.Base.{
  ◌≡◌, ◌≢◌, refl, ap, sym, ◌∙◌, Bool, [], ◌∷◌, ◌++◌, ◌⊎◌, inl, inr, Bool-cases, if◌then◌else◌,
  string_eq, Eq,
}
use soro_fuzz.Server.Store.{CampaignStatus, RunStatus}
use soro_fuzz.Server.Store.Tables.{CampaignRow, RunRow, Tables, update_where}
use soro_fuzz.Server.Store.Operations.Lists.{
  IsIn, IsIn-append_split, IsIn-append_left, IsIn-append_right, IsIn-update_where, IsIn-updated,
}

-- The campaign's status for a run's.
unfoldable pub mirror : RunStatus → CampaignStatus
mirror RunStatus.pending = CampaignStatus.queued
mirror RunStatus.running = CampaignStatus.running
mirror RunStatus.completed = CampaignStatus.completed
mirror RunStatus.cancelled = CampaignStatus.cancelled
mirror RunStatus.failed = CampaignStatus.failed

module _ {Uuid : Type 0} ⦃e : Eq Uuid⦄ where
  pub record Consistent (t : Tables Uuid) : Type 0 where
    pub one_row : (r s : RunRow Uuid) → IsIn r t.runs → IsIn s t.runs → r.id ≡ s.id → r ≡ s
    pub one_run :
        (r s : RunRow Uuid) → IsIn r t.runs → IsIn s t.runs → r.campaign_id ≡ s.campaign_id → r ≡ s
    pub refers :
        (r : RunRow Uuid)
        → IsIn r t.runs
        → (c : CampaignRow Uuid) × IsIn c t.campaigns × (c.id ≡ r.campaign_id)
    pub has_run :
        (c : CampaignRow Uuid)
        → IsIn c t.campaigns
        → (r : RunRow Uuid) × IsIn r t.runs × (r.campaign_id ≡ c.id)
    pub mirrored :
        (c : CampaignRow Uuid) (r : RunRow Uuid)
        → IsIn c t.campaigns
        → IsIn r t.runs
        → r.campaign_id ≡ c.id
        → c.status ≡ mirror r.status

  -- Two updates that keep the ids, and that keep the mirror on rows that belong together, keep the
  -- tables consistent.
  pub update_rows :
      (t t' : Tables Uuid) (p : CampaignRow Uuid → Bool) (f : CampaignRow Uuid → CampaignRow Uuid)
      (q : RunRow Uuid → Bool) (g : RunRow Uuid → RunRow Uuid)
      → t'.campaigns ≡ update_where p f t.campaigns
      → t'.runs ≡ update_where q g t.runs
      → ((c : CampaignRow Uuid) → (f c).id ≡ c.id)
      → ((r : RunRow Uuid) → ((g r).id ≡ r.id) × ((g r).campaign_id ≡ r.campaign_id))
      → ((c : CampaignRow Uuid) (r : RunRow Uuid)
          → IsIn c t.campaigns
          → IsIn r t.runs
          → r.campaign_id ≡ c.id
          → c.status ≡ mirror r.status
          → (if p c then f c else c).status ≡ mirror (if q r then g r else r).status)
      → Consistent t
      → Consistent t'
  update_rows t t' p f q g cs rs keep_id keep_ids keep_mirror k = record {
    one_row = λ r s hr hs same.
        let (r0, ir, er) = IsIn-update_where q g r t.runs (rw (← rs) hr) in
        let (s0, is, es) = IsIn-update_where q g s t.runs (rw (← rs) hs) in
        er
        ∙ ap upd (
            k.one_row r0 s0 ir is
              (sym (run_id r0) ∙ ap (λ x. x.id) (sym er) ∙ same ∙ ap (λ x. x.id) es ∙ run_id s0))
        ∙ sym es;
    one_run = λ r s hr hs same.
        let (r0, ir, er) = IsIn-update_where q g r t.runs (rw (← rs) hr) in
        let (s0, is, es) = IsIn-update_where q g s t.runs (rw (← rs) hs) in
        er
        ∙ ap upd (
            k.one_run r0 s0 ir is (
              sym (run_campaign r0)
              ∙ ap (λ x. x.campaign_id) (sym er)
              ∙ same
              ∙ ap (λ x. x.campaign_id) es
              ∙ run_campaign s0))
        ∙ sym es;
    refers = λ r hr.
        let (r0, ir, er) = IsIn-update_where q g r t.runs (rw (← rs) hr) in
        let (c, ic, ec) = k.refers r0 ir in
        (
          if p c then f c else c,
          rw cs (IsIn-updated p f c t.campaigns ic),
          campaign_id c ∙ ec ∙ sym (run_campaign r0) ∙ ap (λ x. x.campaign_id) (sym er),
        );
    has_run = λ c hc.
        let (c0, ic, ec) = IsIn-update_where p f c t.campaigns (rw (← cs) hc) in
        let (r, ir, er) = k.has_run c0 ic in
        (
          if q r then g r else r,
          rw rs (IsIn-updated q g r t.runs ir),
          run_campaign r ∙ er ∙ sym (campaign_id c0) ∙ ap (λ x. x.id) (sym ec),
        );
    mirrored = λ c r hc hr same.
        let (c0, ic, ec) = IsIn-update_where p f c t.campaigns (rw (← cs) hc) in
        let (r0, ir, er) = IsIn-update_where q g r t.runs (rw (← rs) hr) in
        let together =
          sym (run_campaign r0)
          ∙ ap (λ x. x.campaign_id) (sym er)
          ∙ same
          ∙ ap (λ x. x.id) ec
          ∙ campaign_id c0 in
        ap (λ x. x.status) ec
        ∙ keep_mirror c0 r0 ic ir together (k.mirrored c0 r0 ic ir together)
        ∙ ap (λ x. mirror x.status) (sym er);
  }
    where
      upd : RunRow Uuid → RunRow Uuid
      upd r = if q r then g r else r

      run_id : (r : RunRow Uuid) → (upd r).id ≡ r.id
      run_id r = elim (Bool-cases (q r)) [ inl y ↦ rw y (keep_ids r).0 | inr n ↦ rw n ]

      run_campaign : (r : RunRow Uuid) → (upd r).campaign_id ≡ r.campaign_id
      run_campaign r = elim (Bool-cases (q r)) [ inl y ↦ rw y (keep_ids r).1 | inr n ↦ rw n ]

      campaign_id : (c : CampaignRow Uuid) → (if p c then f c else c).id ≡ c.id
      campaign_id c = elim (Bool-cases (p c)) [ inl y ↦ rw y (keep_id c) | inr n ↦ rw n ]

  pub unchanged-Consistent :
      (t t' : Tables Uuid)
      → t'.campaigns ≡ t.campaigns
      → t'.runs ≡ t.runs
      → Consistent t
      → Consistent t'
  unchanged-Consistent t t' cs rs k = record {
    one_row = rw rs k.one_row;
    one_run = rw rs k.one_run;
    refers = rw (rs, cs) k.refers;
    has_run = rw (rs, cs) k.has_run;
    mirrored = rw (rs, cs) k.mirrored;
  }

  -- Ids that a new campaign and its run can take.
  abbrev pub IsFresh : Uuid → Uuid → Tables Uuid → Type 0
  IsFresh campaign_id run_id t =
      ((c : CampaignRow Uuid) → IsIn c t.campaigns → c.id ≢ campaign_id)
      × ((r : RunRow Uuid) → IsIn r t.runs → r.id ≢ run_id)

  -- A campaign that is added with its run, as `create_campaign` adds them.
  pub add_rows-Consistent :
      (t t' : Tables Uuid) (c : CampaignRow Uuid) (r : RunRow Uuid)
      → t'.campaigns ≡ t.campaigns ++ (c ∷ [])
      → t'.runs ≡ t.runs ++ (r ∷ [])
      → r.campaign_id ≡ c.id
      → c.status ≡ mirror r.status
      → IsFresh c.id r.id t
      → Consistent t
      → Consistent t'
  add_rows-Consistent t t' c r cs rs together same (fresh_c, fresh_r) k = record {
    one_row = λ x y hx hy eq. elim (run_in x hx) [
      | inl p ↦ elim (run_in y hy) [
        | inl q ↦ k.one_row x y p q eq
        | inr q ↦ absurd (fresh_r x p (eq ∙ ap (λ z. z.id) q))
      ]
      | inr p ↦ elim (run_in y hy) [
        | inl q ↦ absurd (fresh_r y q (sym eq ∙ ap (λ z. z.id) p))
        | inr q ↦ p ∙ sym q
      ]
    ];
    one_run = λ x y hx hy eq. elim (run_in x hx) [
      | inl p ↦ elim (run_in y hy) [
        | inl q ↦ k.one_run x y p q eq
        | inr q ↦ absurd (not_new x p (eq ∙ ap (λ z. z.campaign_id) q ∙ together))
      ]
      | inr p ↦ elim (run_in y hy) [
        | inl q ↦ absurd (not_new y q (sym eq ∙ ap (λ z. z.campaign_id) p ∙ together))
        | inr q ↦ p ∙ sym q
      ]
    ];
    refers = λ x hx. elim (run_in x hx) [
      | inl p ↦
          let (d, id, ed) = k.refers x p in
          (d, rw cs (IsIn-append_left d t.campaigns (c ∷ []) id), ed)
      | inr p ↦ (
        c,
        rw cs (IsIn-append_right c t.campaigns (c ∷ []) (inl refl)),
        sym together ∙ ap (λ z. z.campaign_id) (sym p),
      )
    ];
    has_run = λ d hd. elim (campaign_in d hd) [
      | inl p ↦
          let (x, ix, ex) = k.has_run d p in (x, rw rs (IsIn-append_left x t.runs (r ∷ []) ix), ex)
      | inr p ↦ (
        r,
        rw rs (IsIn-append_right r t.runs (r ∷ []) (inl refl)),
        together ∙ ap (λ z. z.id) (sym p),
      )
    ];
    mirrored = λ d x hd hx eq. elim (campaign_in d hd) [
      | inl p ↦ elim (run_in x hx) [
        | inl q ↦ k.mirrored d x p q eq
        | inr q ↦ absurd (fresh_c d p (sym eq ∙ ap (λ z. z.campaign_id) q ∙ together))
      ]
      | inr p ↦ elim (run_in x hx) [
        | inl q ↦ absurd (not_new x q (eq ∙ ap (λ z. z.id) p))
        | inr q ↦ ap (λ z. z.status) p ∙ same ∙ ap (λ z. mirror z.status) (sym q)
      ]
    ];
  }
    where
      run_in : (x : RunRow Uuid) → IsIn x t'.runs → IsIn x t.runs ⊎ (x ≡ r)
      run_in x h = elim (IsIn-append_split x t.runs (r ∷ []) (rw (← rs) h)) [
        | inl p ↦ inl p
        | inr q ↦ elim q [ inl here ↦ inr here | inr no_ ↦ absurd no_ ]
      ]

      campaign_in : (x : CampaignRow Uuid) → IsIn x t'.campaigns → IsIn x t.campaigns ⊎ (x ≡ c)
      campaign_in x h = elim (IsIn-append_split x t.campaigns (c ∷ []) (rw (← cs) h)) [
        | inl p ↦ inl p
        | inr q ↦ elim q [ inl here ↦ inr here | inr no_ ↦ absurd no_ ]
      ]

      not_new : (x : RunRow Uuid) → IsIn x t.runs → x.campaign_id ≢ c.id
      not_new x p eq = let (d, id, ed) = k.refers x p in fresh_c d id (ed ∙ eq)
