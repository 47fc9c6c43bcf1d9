-- ===== src/Store/Replay/Records.antt =====
-- What a request that is accepted leaves behind: the record of its idempotency key.
use gu_gu_manager.Base.{
  ◌≡◌, refl, ap, ◌∙◌, subst, inl, inr, String, true, Option, none, some, [], ◌∷◌, arith, str_eq,
  eq_iff, Bool-cases, Option-cases,
}
use gu_gu_manager.Base.Maps.{Assoc, lookup, lookup-insert_same}
use gu_gu_manager.Store.Types.{Operation, IdempotencyRecord, Memory}
use gu_gu_manager.Store.Exec.{ok, Exec, pure, gets, modify, ◌>>=◌, ◌>>◌}
use gu_gu_manager.Store.Idempotency.{
  idempotent_operation, active_exclusive_operation, first_active, remember,
}
use gu_gu_manager.Store.Power.{replay}
use gu_gu_manager.Store.Exclusion.Queue.{Still}
use gu_gu_manager.Store.Replay.Answers.{IsRecorded}
use gu_gu_manager.Store.Replay.Ensures.{
  Ensures, ok_injective, Ensures-pure, Ensures-gets, Ensures-Still, Ensures-bind,
}

-- Each operation stands once, under its own identifier.
abbrev pub IsKeyed : Assoc Operation → Type 0
IsKeyed [] = Unit
IsKeyed ((id, o) ∷ rest) = (o.id ≡ id) × (lookup id rest ≡ none) × IsKeyed rest

lookup-IsKeyed :
    (id : String) (o : Operation) (ops : Assoc Operation)
    → IsKeyed ops
    → lookup id ops ≡ some o
    → o.id ≡ id
unfolding lookup
lookup-IsKeyed id o [] k e = absurd (ground arith)
lookup-IsKeyed id o ((i, a) ∷ rest) (own, once, k) e =
    ground (arith, eq_iff i id, lookup-IsKeyed id o rest k)

first_active-stored :
    (server : String) (a : Operation) (ops : Assoc Operation)
    → IsKeyed ops
    → first_active server ops ≡ some a
    → lookup a.id ops ≡ some a
unfolding lookup first_active
first_active-stored server a [] k e = absurd (ground arith)
first_active-stored server a ((i, o) ∷ rest) (own, once, k) e =
    ground (arith, eq_iff i a.id, first_active-stored server a rest k)

-- The record of a request for an operation.
abbrev pub record_of : String → Operation → IdempotencyRecord
record_of digest o = record { operation_id = o.id; request_digest = digest }

abbrev pub Recorded : String → String → Operation → Memory → Type 0
Recorded scope digest o m = IsRecorded scope (record_of digest o) o m

abbrev Keyed : Memory → Type 0
Keyed m = IsKeyed m.operations

abbrev WasFound : String → String → Option Operation → Memory → Type 0
WasFound scope digest found m =
    IsKeyed m.operations × ((o : Operation) → found ≡ some o → Recorded scope digest o m)

abbrev IsStored : Option Operation → Memory → Type 0
IsStored found m = (o : Operation) → found ≡ some o → lookup o.id m.operations ≡ some o

module _ (scope digest : String) where
  record_of-known :
      (rec : IdempotencyRecord) (m : Memory) (o : Operation)
      → IsKeyed m.operations
      → lookup scope m.idempotency ≡ some rec
      → str_eq rec.request_digest digest ≡ true
      → lookup rec.operation_id m.operations ≡ some o
      → Recorded scope digest o m
  record_of-known rec m o k known same stored =
      let own = lookup-IsKeyed rec.operation_id o m.operations k stored in
      record {
        known = known ∙ ap some (ground (arith, eq_iff rec.request_digest digest));
        stored = ap (λ id. lookup id m.operations) own ∙ stored;
      }

  idempotent_operation-Recorded :
      (m : Memory)
      → IsKeyed m.operations
      → (o : Operation) → idempotent_operation scope digest m ≡ ok (some o)
      → Recorded scope digest o m
  unfolding idempotent_operation
  idempotent_operation-Recorded m k o e = elim (Option-cases (lookup scope m.idempotency)) [
    | inl unknown ↦ absurd (ground arith)
    | inr (rec, known) ↦ elim (Bool-cases (str_eq rec.request_digest digest)) [
      | inr other ↦ absurd (ground arith)
      | inl same ↦ elim (Option-cases (lookup rec.operation_id m.operations)) [
        | inl missing ↦ absurd (ground arith)
        | inr (o', stored) ↦ record_of-known rec m o k known same (ground arith)
      ]
    ]
  ]

  pub remember-Ensures :
      (a : Operation)
      → Ensures
          (λ m. lookup a.id m.operations ≡ some a)
          (do modify (remember scope a.id digest); pure a)
          (Recorded scope digest)
  unfolding remember ◌>>=◌ modify pure
  remember-Ensures a = record {
    at = λ m stored b e.
        subst (λ c. Recorded scope digest c (remember scope a.id digest m)) (ok_injective a b e)
          (record {
            known = lookup-insert_same scope (record_of digest a) m.idempotency;
            stored = stored;
          });
  }

  replay-Ensures : Ensures Keyed (replay scope digest) (WasFound scope digest)
  unfolding replay
  replay-Ensures = record {
    at = λ m k found e. (k, λ o is. idempotent_operation-Recorded m k o (e ∙ ap ok is));
  }

active-Ensures :
    (server : String) → Ensures Keyed (gets (active_exclusive_operation server)) IsStored
unfolding active_exclusive_operation
active-Ensures server =
    Ensures-gets Keyed IsStored (active_exclusive_operation server)
      (λ m k a is. first_active-stored server a m.operations k is)

-- The steps that leave the operations alone, before the change.
pub keeps :
    {A B : Type 0} (Q : B → Memory → Type 0) (x : Exec A) (f : A → Exec B)
    → Still x
    → ((a : A) → Ensures Keyed (f a) Q)
    → Ensures Keyed (x >>= f) Q
keeps Q x f s h = Ensures-bind Keyed (λ a. Keyed) Q x f (Ensures-Still IsKeyed x s) h

module _ (scope digest : String) where
  found_or_new :
      (found : Option Operation) (otherwise : Exec Operation)
      → Ensures Keyed otherwise (Recorded scope digest)
      → Ensures
          (WasFound scope digest found)
          (elim found as (λ _. Exec Operation) [ some o ↦ pure o | none ↦ otherwise ])
          (Recorded scope digest)
  found_or_new none otherwise h = record { at = λ m p a e. h.at m p.0 a e }
  found_or_new (some o) otherwise h =
      Ensures-pure (WasFound scope digest (some o)) (Recorded scope digest) o (λ m p. p.1 o refl)

  -- The look at the record of the key, and the rest of the call if there is none.
  pub replayed-Ensures :
      (otherwise : Exec Operation)
      → Ensures Keyed otherwise (Recorded scope digest)
      → Ensures Keyed
          (replay scope digest >>= λ found. elim found as (λ _. Exec Operation) [
            | some o ↦ pure o
            | none ↦ otherwise
          ])
          (Recorded scope digest)
  replayed-Ensures otherwise h =
      Ensures-bind Keyed (WasFound scope digest) (Recorded scope digest) (replay scope digest) _
        (replay-Ensures scope digest) (λ found. found_or_new found otherwise h)

  busy_or_idle :
      (active : Option Operation) (busy : Operation → Exec Operation) (idle : Exec Operation)
      → ((o : Operation)
          → Ensures (λ m. lookup o.id m.operations ≡ some o) (busy o) (Recorded scope digest))
      → Ensures (λ m. Unit {0}) idle (Recorded scope digest)
      → Ensures
          (IsStored active)
          (elim active as (λ _. Exec Operation) [ some o ↦ busy o | none ↦ idle ])
          (Recorded scope digest)
  busy_or_idle none busy idle hb hi = record { at = λ m p a e. hi.at m tt a e }
  busy_or_idle (some o) busy idle hb hi = record { at = λ m p a e. (hb o).at m (p o refl) a e }

  -- The look at the operation that the server is busy with, and what is done about it.
  pub active_then-Ensures :
      (server : String) (busy : Operation → Exec Operation) (idle : Exec Operation)
      → ((o : Operation)
          → Ensures (λ m. lookup o.id m.operations ≡ some o) (busy o) (Recorded scope digest))
      → Ensures (λ m. Unit {0}) idle (Recorded scope digest)
      → Ensures Keyed
          (gets (active_exclusive_operation server) >>= λ active.
            elim active as (λ _. Exec Operation) [ some o ↦ busy o | none ↦ idle ])
          (Recorded scope digest)
  active_then-Ensures server busy idle hb hi =
      Ensures-bind Keyed IsStored (Recorded scope digest) (gets (active_exclusive_operation server))
        _ (active-Ensures server) (λ active. busy_or_idle active busy idle hb hi)

  -- The change that queues an operation and records the key.
  pub accept-Ensures :
      (f : Memory → Memory) (o : Operation)
      → ((m : Memory) → Recorded scope digest o (f m))
      → Ensures (λ m. Unit {0}) (do modify f; pure o) (Recorded scope digest)
  unfolding ◌>>=◌ modify pure
  accept-Ensures f o h = record {
    at = λ m p b e. subst (λ c. Recorded scope digest c (f m)) (ok_injective o b e) (h m);
  }
