-- ===== src/UseCases/Scheduler/Restore.antt =====
-- What `restore` of internal/usecases/scheduler.py sets back.
use mathlib.Core.Option.{some-injective}
use washing.Prelude.{
  ◌⊎◌, ◌||◌, zero, suc, ℕ, ◌≡◌, refl, ap, sym, ◌∙◌, ◌==◌, ==_iff, false, Option, some, List, [],
  ◌∷◌, ◌++◌, All, arith, Bool-cases, inl, inr, if◌then◌else◌, drop, length, map,
}
use washing.Db.{
  MachineProvisioner, get, update, elem_id, changed, changed_if, get-update, changed-false,
  changed_twice,
}
use washing.UseCases.Scheduler.{Reserved, schedule_at, provisioner_id, restore, reservation}

abbrev pub ids_of : List Reserved → List ℕ
ids_of [] = []
ids_of (r ∷ rs) = r.id ∷ ids_of rs

-- The reservations of `j` hold one moment.
abbrev pub AllHold : ℕ → Option ℕ → List Reserved → Type 0
AllHold j previous [] = Unit
AllHold j previous (r ∷ rs) =
    (((r.id == j) ≡ false) ⊎ (r.previous ≡ previous)) × AllHold j previous rs

pub same_change :
    (j : ℕ) (previous : Option ℕ) (r : Reserved) (o : Option MachineProvisioner)
    → ((r.id == j) ≡ false) ⊎ (r.previous ≡ previous)
    → (if r.id == j then changed (schedule_at r.previous) o else o)
      ≡ (if r.id == j then changed (schedule_at previous) o else o)
same_change j previous r o (inl e) = rw e refl
same_change j previous r o (inr e) = ap (λ t. if r.id == j then changed (schedule_at t) o else o) e

pub get-restore :
    (j : ℕ) (previous : Option ℕ) (rs : List Reserved) (rows : List MachineProvisioner)
    → AllHold j previous rs
    → get provisioner_id (restore rs rows) j
      ≡ changed
          (changed_if (elem_id j (ids_of rs)) (schedule_at previous))
          (get provisioner_id rows j)
unfolding restore
get-restore j previous [] rows h =
    sym (changed-false provisioner_id (schedule_at previous) (get provisioner_id rows j))
get-restore j previous (r ∷ rs) rows h =
    get-restore j previous rs (update provisioner_id r.id (schedule_at r.previous) rows) h.1
    ∙ ap (changed (changed_if (elem_id j (ids_of rs)) (schedule_at previous))) (
        get-update provisioner_id (schedule_at r.previous) r.id j rows (λ a. refl)
        ∙ same_change j previous r (get provisioner_id rows j) h.0)
    ∙ changed_twice provisioner_id (schedule_at previous) (elem_id j (ids_of rs)) (r.id == j)
        (get provisioner_id rows j) (λ a. refl)

-- Every row of a list is the one that its table has under its key.
abbrev pub AllStored : List MachineProvisioner → List MachineProvisioner → Type 0
AllStored rows ps = All (λ p. get provisioner_id rows p.id ≡ some p) ps

pub elem_id-append : (j : ℕ) (a b : List ℕ) → elem_id j (a ++ b) ≡ (elem_id j a || elem_id j b)
elem_id-append j [] b = refl
elem_id-append j (i ∷ a) b = ground (arith, elem_id-append j a b)

pub drop-ids_of :
    (n : ℕ) (ps : List MachineProvisioner)
    → ids_of (drop n (map reservation ps)) ≡ drop n (map provisioner_id ps)
drop-ids_of zero [] = refl
drop-ids_of zero (p ∷ ps) = ap (λ l. p.id ∷ l) (drop-ids_of zero ps)
drop-ids_of (suc n) [] = refl
drop-ids_of (suc n) (p ∷ ps) = drop-ids_of n ps

pub drop-append : (a b : List ℕ) → drop (length a) (a ++ b) ≡ b
drop-append [] b = refl
drop-append (x ∷ a) b = drop-append a b

pub drop-AllHold :
    (j : ℕ) (previous : Option ℕ) (n : ℕ) (rs : List Reserved)
    → AllHold j previous rs
    → AllHold j previous (drop n rs)
drop-AllHold j previous zero rs h = h
drop-AllHold j previous (suc n) [] h = tt
drop-AllHold j previous (suc n) (r ∷ rs) h = drop-AllHold j previous n rs h.1

pub reservation-AllHold :
    (j : ℕ) (p : MachineProvisioner) (rows ps : List MachineProvisioner)
    → get provisioner_id rows j ≡ some p
    → AllStored rows ps
    → AllHold j p.last_scheduled_at (map reservation ps)
reservation-AllHold j p rows [] found h = tt
reservation-AllHold j p rows (q ∷ ps) found h = (
  elim (Bool-cases (q.id == j)) [
    | inl e ↦ inr (
        ap (λ (x : MachineProvisioner). x.last_scheduled_at)
          (some-injective q p
            (sym h.0 ∙ ap (get provisioner_id rows) ((==_iff q.id j).0 e) ∙ found)))
    | inr e ↦ inl e
  ],
  reservation-AllHold j p rows ps found h.1,
)
