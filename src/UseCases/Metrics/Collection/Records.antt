-- ===== src/UseCases/Metrics/Collection/Records.antt =====
-- The loop of a collection of internal/usecases/metrics.py, record by record: what it counts, and the
-- value that it leaves for a machine and a day.
use washing.Prelude.{
  ℕ, ◌+◌, ◌≡◌, refl, sym, ap, ◌∙◌, ◌==◌, ==_refl, Bool, true, false, not, ◌&&◌, Option, none, some,
  or_else, is_some, List, [], ◌∷◌, find, ℤ, arith, FloatOps, Bool-cases, inl, inr, if◌then◌else◌,
  All,
}
use mathlib.Core.Path.{subst}
use washing.Domain.{Strings}
use washing.Db.{Machine, MachineProvider, Metric}
use washing.Connectors.{MetricRecord}
use washing.UseCases.Metrics.Defs.{
  Pending, upsert_all, upsert_sample, upsert_resolved, upsert_daily_metric, sample_of,
  resolve_machine_id, or_today, is_same_day,
}
use washing.UseCases.Metrics.Collection.Samples.{
  Holds, Holds-and_then, Holds-if, Holds-imp, or_else_assoc, value_at, is_for, view, IsDisjoint,
  found-known, upsert_sample-known, upsert_sample-view, upsert_sample-IsDisjoint,
}

module _ {A : Type 0} where
  abbrev pub count_if : (A → Bool) → List A → ℕ
  count_if test [] = 0
  count_if test (x ∷ xs) = (if test x then 1 else 0) + count_if test xs

module _ (strings : Strings) (fl : FloatOps) (provider : MachineProvider) (machines : List Machine)
    (today : ℕ) where
  -- Whether a table holds a value of the provider for a machine and a day.
  abbrev pub Held : Type 0
  Held = ℕ → ℕ → Bool

  abbrev pub held : List Metric → Held
  held rows machine date = is_some (value_at provider.id machine date rows)

  abbrev is_held : Held → MetricRecord → Option ℕ → Bool
  is_held k r none = false
  is_held k r (some id) = k id (or_today r.date today)

  abbrev pub is_update : Held → MetricRecord → Bool
  is_update k r = is_held k r (resolve_machine_id strings r machines)

  abbrev pub is_skip : MetricRecord → Bool
  is_skip r = not (is_some (resolve_machine_id strings r machines))

  abbrev pub is_insert : Held → MetricRecord → Bool
  is_insert k r =
      is_some (resolve_machine_id strings r machines)
      && not (is_held k r (resolve_machine_id strings r machines))

  -- The counters of q are those of p with these records.
  abbrev pub IsCounted : Held → List MetricRecord → Pending → Pending → Type 0
  IsCounted k records p q =
      (q.created ≡ p.created + count_if (is_insert k) records)
      × (q.updated ≡ p.updated + count_if (is_update k) records)
      × (q.skipped ≡ p.skipped + count_if is_skip records)

  -- The same for one record that resolves to a machine or not.
  abbrev IsStep : MetricRecord → Option ℕ → Pending → Pending → Type 0
  IsStep r id p q =
      (q.created ≡ p.created + (if is_some id && not (is_held (held p.rows) r id) then 1 else 0))
      × (q.updated ≡ p.updated + (if is_held (held p.rows) r id then 1 else 0))
      × (q.skipped ≡ p.skipped + (if not (is_some id) then 1 else 0))

  sample-is_for :
      (r : MetricRecord) (id : ℕ)
      → is_for provider.id id (or_today r.date today) (sample_of strings fl provider r today id)
        ≡ true
  sample-is_for r id = rw (==_refl provider.id, ==_refl id, ==_refl (or_today r.date today)) refl

  upsert_sample-IsStep :
      (r : MetricRecord) (id : ℕ) (p : Pending)
      → IsStep r (some id) p (upsert_sample (sample_of strings fl provider r today id) p)
  unfolding upsert_sample
  upsert_sample-IsStep r id p =
      let s = sample_of strings fl provider r today id in
      let date = or_today r.date today in
      let known = found-known provider.id id date s p.rows (sample-is_for r id) in
      elim (Bool-cases (is_some (find (is_same_day s) p.rows))) [
        | inl e ↦ rw (e, sym known ∙ e) (omega arith, omega arith, omega arith)
        | inr e ↦ rw (e, sym known ∙ e) (omega arith, omega arith, omega arith)
      ]

  IsCounted-cons :
      (r : MetricRecord) (rs : List MetricRecord) (p q q' : Pending)
      → (held q.rows ≡ held p.rows) × IsStep r (resolve_machine_id strings r machines) p q
      → IsCounted (held q.rows) rs q q'
      → IsCounted (held p.rows) (r ∷ rs) p q'
  IsCounted-cons r rs p q q' (same, step) rest =
      let (c, u, s) = subst (λ k. IsCounted k rs q q') same rest in
      (omega (arith, step.0, c), omega (arith, step.1, u), omega (arith, step.2, s))

  upsert_resolved-IsStep :
      (r : MetricRecord) (id : Option ℕ) (p : Pending)
      → Holds
          (λ q. (held q.rows ≡ held p.rows) × IsStep r id p q)
          (upsert_resolved strings fl provider r today id p)
  unfolding upsert_resolved
  upsert_resolved-IsStep r none p = (refl, (omega arith, omega arith, omega arith))
  upsert_resolved-IsStep r (some id) p =
      let s = sample_of strings fl provider r today id in
      Holds-if (λ q. (held q.rows ≡ held p.rows) × IsStep r (some id) p q) (fl.is_finite r.value)
        (upsert_sample s p)
        (
          λ i machine date. upsert_sample-known provider.id machine date s p i,
          upsert_sample-IsStep r id p,
        )

  pub upsert_all-IsCounted :
      (records : List MetricRecord) (p : Pending)
      → Holds
          (IsCounted (held p.rows) records p)
          (upsert_all strings fl provider machines today records p)
  unfolding upsert_all upsert_daily_metric
  upsert_all-IsCounted [] p = (omega arith, omega arith, omega arith)
  upsert_all-IsCounted (r ∷ rs) p =
      let id = resolve_machine_id strings r machines in
      Holds-and_then (IsCounted (held p.rows) (r ∷ rs) p)
        (upsert_resolved strings fl provider r today id p)
        (λ q. upsert_all strings fl provider machines today rs q)
        (Holds-imp (λ q. (held q.rows ≡ held p.rows) × IsStep r id p q)
          (λ q.
            Holds (IsCounted (held p.rows) (r ∷ rs) p)
              (upsert_all strings fl provider machines today rs q))
          (upsert_resolved strings fl provider r today id p)
          (λ q step.
            Holds-imp (IsCounted (held q.rows) rs q) (IsCounted (held p.rows) (r ∷ rs) p)
              (upsert_all strings fl provider machines today rs q)
              (λ q' rest. IsCounted-cons r rs p q q' step rest) (upsert_all-IsCounted rs q))
          (upsert_resolved-IsStep r id p))

  upsert_resolved-some :
      (r : MetricRecord) (id : Option ℕ) (p : Pending)
      → fl.is_finite r.value ≡ true
      → (q : Pending) × (upsert_resolved strings fl provider r today id p ≡ some q)
  unfolding upsert_resolved
  upsert_resolved-some r none p finite = (_, refl)
  upsert_resolved-some r (some id) p finite =
      (upsert_sample (sample_of strings fl provider r today id) p, rw finite refl)

  upsert_all-some :
      (records : List MetricRecord) (p : Pending)
      → All (λ r. fl.is_finite r.value ≡ true) records
      → (q : Pending) × (upsert_all strings fl provider machines today records p ≡ some q)
  unfolding upsert_all upsert_daily_metric
  upsert_all-some [] p h = (p, refl)
  upsert_all-some (r ∷ rs) p (finite, h) =
      let (q, e) = upsert_resolved-some r (resolve_machine_id strings r machines) p finite in
      let (q', e') = upsert_all-some rs q h in (q', rw e e')

  -- If the values are finite, the loop over the records raises nothing, and each record is counted
  -- once: as skipped if it resolves to no machine, as updated if the table of before the loop
  -- holds a value of the provider for its machine and day, and else as created.
  pub upsert_all-counts :
      (records : List MetricRecord) (p : Pending)
      → All (λ r. fl.is_finite r.value ≡ true) records
      → (q : Pending) × (upsert_all strings fl provider machines today records p ≡ some q)
        × IsCounted (held p.rows) records p q
  upsert_all-counts records p h =
      let (q, e) = upsert_all-some records p h in
      (q, e, subst (Holds (IsCounted (held p.rows) records p)) e (upsert_all-IsCounted records p))

  module _ (machine date : ℕ) where
    -- The value that a record gives the machine on the day, if it does.
    abbrev sampled : MetricRecord → Option ℕ → Option ℤ
    sampled r none = none
    sampled r (some id) =
        if id == machine && or_today r.date today == date then some (fl.truncate r.value) else none

    -- The last such value.
    abbrev pub last_sampled : List MetricRecord → Option ℤ
    last_sampled [] = none
    last_sampled (r ∷ rs) =
        or_else (last_sampled rs) (sampled r (resolve_machine_id strings r machines))

    abbrev pub IsSeen : Option ℤ → Pending → Pending → Type 0
    IsSeen o p q =
        IsDisjoint provider.id machine date q
        × (view provider.id machine date q ≡ or_else o (view provider.id machine date p))

    upsert_resolved-IsSeen :
        (r : MetricRecord) (id : Option ℕ) (p : Pending)
        → IsDisjoint provider.id machine date p
        → Holds (IsSeen (sampled r id) p) (upsert_resolved strings fl provider r today id p)
    unfolding upsert_resolved
    upsert_resolved-IsSeen r none p d = (d, refl)
    upsert_resolved-IsSeen r (some id) p d =
        let s = sample_of strings fl provider r today id in
        Holds-if (IsSeen (sampled r (some id)) p) (fl.is_finite r.value) (upsert_sample s p) (
          upsert_sample-IsDisjoint provider.id machine date s p d,
          upsert_sample-view provider.id machine date s p d
              ∙ ap
                  (λ b.
                    or_else
                      (if b && (id == machine && or_today r.date today == date)
                        then some (fl.truncate r.value)
                        else none)
                      (view provider.id machine date p))
                  (==_refl provider.id),
        )

    pub upsert_all-IsSeen :
        (records : List MetricRecord) (p : Pending)
        → IsDisjoint provider.id machine date p
        → Holds
            (IsSeen (last_sampled records) p)
            (upsert_all strings fl provider machines today records p)
    unfolding upsert_all upsert_daily_metric
    upsert_all-IsSeen [] p d = (d, refl)
    upsert_all-IsSeen (r ∷ rs) p d =
        let id = resolve_machine_id strings r machines in
        Holds-and_then (IsSeen (last_sampled (r ∷ rs)) p)
          (upsert_resolved strings fl provider r today id p)
          (λ q. upsert_all strings fl provider machines today rs q)
          (Holds-imp (IsSeen (sampled r id) p)
            (λ q.
              Holds (IsSeen (last_sampled (r ∷ rs)) p)
                (upsert_all strings fl provider machines today rs q))
            (upsert_resolved strings fl provider r today id p)
            (λ q (e, v).
              Holds-imp (IsSeen (last_sampled rs) q) (IsSeen (last_sampled (r ∷ rs)) p)
                (upsert_all strings fl provider machines today rs q)
                (λ q' (e', v'). (
                  e',
                  v'
                      ∙ ap (or_else (last_sampled rs)) v
                      ∙ sym (
                          or_else_assoc (last_sampled rs) (sampled r id)
                            (view provider.id machine date p)),
                ))
                (upsert_all-IsSeen rs q e))
            (upsert_resolved-IsSeen r id p d))
