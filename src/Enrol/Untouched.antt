-- ===== src/Enrol/Untouched.antt =====
-- `enrolOnce` (cmd/synctang-unlocker/enrol.go) when the transport id is already enrolled.
use synctang.Action.{pure, lift, bind_ok, bind_err}
use synctang.Action.Triple.{Triple, triple-bind, post-both}
use synctang.Enrol.Host.{Command, luks_dump, System, Log, EnrolError, reading_header, different_key}
use synctang.Enrol.Entries.{is_empty, recipients_by_transport_id}
use synctang.Enrol.Reading.{
  is_negative, EnrolPlan, plan_add, plan_already, plan_replace, plan_among, plan_enrolment,
}
use synctang.Enrol.Changes.{EnrolOutcome, enrol_once, carry_on, planned, outcome_of_plan}
use synctang.Enrol.Kept.{is_read, HostOf, log_of, kept_run, kept_lift, kept_load_token}
use synctang.Prelude.{
  ◌≡◌, ◌≢◌, refl, ap, ◌∙◌, some, Bool, true, false, ◌&&◌, [], ◌∷◌, Bytes, Result, ok, if◌then◌else◌,
  arith,
}

-- Every run so far only reads.
abbrev pub all_reads : Log → Bool
all_reads [] = true
all_reads ((c, won) ∷ l) = is_read c && all_reads l

abbrev pub Reads : Log → Type 0
Reads l = all_reads l ≡ true

module _ (sys : System) (device passphrase : Bytes) where
  Reads-stays :
      (c : Command) (won : Bool) (l : Log) → is_read c ≡ true → Reads l → Reads ((c, won) ∷ l)
  Reads-stays c won l hc h = ground arith

  pub triple-plan_enrolment :
      (public_key transport_id : Bytes)
      → Triple
          (log_of sys)
          Reads
          (plan_enrolment sys device public_key transport_id)
          (λ a. Reads)
          (λ e. Reads)
  unfolding plan_enrolment
  triple-plan_enrolment public_key transport_id =
      triple-bind (λ a. Reads)
        (kept_run sys is_read Reads Reads-stays reading_header (luks_dump device) refl)
        (λ dump.
          triple-bind (λ a. Reads)
            (kept_load_token sys is_read Reads Reads-stays device refl (λ i. refl) dump [] [])
            (λ found. planning (is_negative found.1) (
              plan_among sys device public_key found.0
                (recipients_by_transport_id sys found.0 transport_id))))
    where
      planning :
          (b : Bool) (plan : Result EnrolError EnrolPlan)
          → Triple {E = EnrolError} {A = EnrolPlan}
              (log_of sys)
              Reads
              (if b then pure plan_add else lift (λ e. e) plan)
              (λ a. Reads)
              (λ e. Reads)
      planning true plan = record { run = λ h p. p }
      planning false plan = kept_lift sys is_read Reads Reads-stays (λ e. e) plan

  Reads-after_plan :
      (public_key recipient_id : Bytes) (h : HostOf sys)
      → (h.log ≡ [])
      → Reads (plan_enrolment sys device public_key recipient_id h).1.log
  Reads-after_plan public_key recipient_id h empty =
      post-both (log_of sys) Reads (plan_enrolment sys device public_key recipient_id h)
        ((triple-plan_enrolment public_key recipient_id).run h (rw (empty)))

  logged : (h k : HostOf sys) → h ≡ k → Reads k.log → Reads h.log
  logged h k e r = rw (e) r

  planned_same :
      (public_key recipient_id : Bytes) (plan : EnrolPlan) (h : HostOf sys)
      → is_empty recipient_id ≡ false
      → (plan_enrolment sys device public_key recipient_id h).0 ≡ ok plan
      → planned sys device passphrase public_key recipient_id h
        ≡ lift
            (λ e. e)
            (outcome_of_plan sys device passphrase plan)
            (plan_enrolment sys device public_key recipient_id h).1
  unfolding planned
  planned_same public_key [] plan h given found = absurd (ground arith)
  planned_same public_key (c ∷ cs) plan h given found =
      bind_ok (plan_enrolment sys device public_key (c ∷ cs))
        (λ plan. lift (λ e. e) (outcome_of_plan sys device passphrase plan)) plan h found

  -- When the plan for a transport id finds it enrolled already, with this key or with another, then
  -- enrolling runs no command but those that read: no keyslot is added or destroyed and no token is
  -- written.
  pub enrol_once_only_reads :
      (public_key machine_name transport_id recipient_id : Bytes) (plan : EnrolPlan)
      (h : HostOf sys)
      → (h.log ≡ [])
      → is_empty recipient_id ≡ false
      → (plan_enrolment sys device public_key recipient_id h).0 ≡ ok plan
      → plan ≢ plan_add
      → all_reads
          (enrol_once sys device passphrase public_key machine_name transport_id recipient_id
            h).1.log
        ≡ true
  unfolding enrol_once carry_on outcome_of_plan
  enrol_once_only_reads public_key machine_name transport_id recipient_id plan_add h empty given
        found enrolled =
      absurd (enrolled refl)
  enrol_once_only_reads public_key machine_name transport_id recipient_id (plan_already e) h empty
        given found enrolled =
      let same = planned_same public_key recipient_id (plan_already e) h given found in
      let o : EnrolOutcome = record { already = true; keyslot = e.keyslot } in
      let there =
        bind_ok (planned sys device passphrase public_key recipient_id)
          (carry_on sys device passphrase public_key machine_name transport_id recipient_id)
          (some o) h (ap (λ out. out.0) same) in
      logged _ _ (ap (λ out. out.1) there ∙ ap (λ out. out.1) same)
        (Reads-after_plan public_key recipient_id h empty)
  enrol_once_only_reads public_key machine_name transport_id recipient_id (plan_replace e) h empty
        given found enrolled =
      let same = planned_same public_key recipient_id (plan_replace e) h given found in
      let there =
        bind_err (planned sys device passphrase public_key recipient_id)
          (carry_on sys device passphrase public_key machine_name transport_id recipient_id)
          (different_key e.keyslot) h (ap (λ out. out.0) same) in
      logged _ _ (there ∙ ap (λ out. out.1) same) (Reads-after_plan public_key recipient_id h empty)
