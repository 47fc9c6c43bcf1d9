-- ===== src/Limiter/Ledger.antt =====
-- The attempts in flight of a key are the open reservations that hold it.
use gu_gu_manager.Base.{
  ℕ, ◌+◌, ◌≡◌, refl, subst, ◌∙◌, inl, inr, String, true, false, not, ◌&&◌, Option, none, some, List,
  [], ◌∷◌, ◌++◌, arith, Bool-cases, contains, if◌then◌else◌, All,
}
use gu_gu_manager.Base.Maps.{lookup}
use gu_gu_manager.Limiter.State.{AttemptLimit, AttemptLimiter, new_attempt_limiter}
use gu_gu_manager.Limiter.Keys.{normalized_limit_keys}
use gu_gu_manager.Limiter.Reserve.{AttemptReservation, reserve}
use gu_gu_manager.Limiter.Complete.{CompletionKind, complete_locked, complete, reset}
use gu_gu_manager.Limiter.Sound.Room.{in_flight_of}
use gu_gu_manager.Limiter.Sound.Admit.{AreOnce, normalized_limit_keys-AreOnce}
use gu_gu_manager.Limiter.Sound.Normal.{normalized_limit_keys_idem}
use gu_gu_manager.Limiter.Budget.{
  IsWithinBudget, IsFair, resets, step, reserve_keys-IsFair, complete_locked-IsWithinBudget,
  step-IsWithinBudget, new_attempt_limiter-IsWithinBudget,
}
use gu_gu_manager.Limiter.Flight.{complete_keys-in_flight, reset_keys-in_flight}

-- A limiter with the reservations that it has given out.
pub record Session : Type 0 where
  pub limiter : AttemptLimiter
  pub reservations : List AttemptReservation

abbrev given : Option AttemptReservation → List AttemptReservation
given none = []
given (some r) = r ∷ []

-- A reservation may be completed at any time, in any order, and more than once.
pub data Step (s t : Session) : Type 0 where
  reserving :
      (keys : List String) (now : ℕ)
      → t ≡ record {
        limiter = (reserve s.limiter keys now).limiter;
        reservations = given (reserve s.limiter keys now).reservation ++ s.reservations;
      }
      → Step s t
  completing :
      (before : List AttemptReservation) (r : AttemptReservation) (after : List AttemptReservation)
      (kind : CompletionKind) (cleared : List String) (now : ℕ)
      → s.reservations ≡ before ++ r ∷ after
      → t ≡ record {
        limiter = (complete s.limiter r kind cleared now).0;
        reservations = before ++ (complete s.limiter r kind cleared now).1 ∷ after;
      }
      → Step s t
  resetting :
      (keys : List String) (now : ℕ)
      → t ≡ record s { limiter = reset s.limiter keys now }
      → Step s t

pub data Reach (s : Session) : Session → Type 0 where
  here : Reach s s
  next : {t u : Session} → Reach s t → Step t u → Reach s u

-- The open reservations that hold a key.
pub open_count : String → List AttemptReservation → ℕ
open_count key [] = 0
open_count key (r ∷ rs) =
    (if not r.is_done && contains key r.keys then 1 else 0) + open_count key rs

open_count-append :
    (key : String) (rs qs : List AttemptReservation)
    → open_count key (rs ++ qs) ≡ open_count key rs + open_count key qs
unfolding open_count
open_count-append key [] qs = omega arith
open_count-append key (r ∷ rs) qs = omega (arith, open_count-append key rs qs)

-- The keys of a reservation are normalized.
pub record IsOwned (r : AttemptReservation) : Type 0 where
  pub normal : normalized_limit_keys r.keys ≡ r.keys

-- The limiter is within its budget, and its attempts in flight are the open reservations.
pub record IsBalanced (s : Session) : Type 0 where
  pub budget : IsWithinBudget s.limiter
  pub owned : All IsOwned s.reservations
  pub balance : (j : String) → in_flight_of j s.limiter.entries ≡ open_count j s.reservations

reserve-IsFair :
    (l : AttemptLimiter) (keys : List String) (now : ℕ)
    → IsWithinBudget l
    → IsFair l (normalized_limit_keys keys) (reserve l keys now)
unfolding reserve
reserve-IsFair l keys now v =
    reserve_keys-IsFair l (normalized_limit_keys keys) now (normalized_limit_keys-AreOnce keys) v

reserving-IsBalanced :
    (s : Session) (keys : List String) (now : ℕ)
    → IsBalanced s
    → IsBalanced (record {
      limiter = (reserve s.limiter keys now).limiter;
      reservations = given (reserve s.limiter keys now).reservation ++ s.reservations;
    })
unfolding open_count
reserving-IsBalanced s keys now v =
    let fair = reserve-IsFair s.limiter keys now v.budget in
    record {
      budget = fair.budget;
      owned = elim (Bool-cases (reserve s.limiter keys now).allowed) [
        | inl yes' ↦
            rw (fair.held, yes') (record { normal = normalized_limit_keys_idem keys }, v.owned)
        | inr no' ↦ rw (fair.held, no') v.owned
      ];
      balance = λ j. elim (Bool-cases (reserve s.limiter keys now).allowed) [
        | inl yes' ↦ rw (fair.held, yes') (ground (arith, fair.ledger j, v.balance j))
        | inr no' ↦ rw (fair.held, no') (ground (arith, fair.ledger j, v.balance j))
      ];
    }

All_middle {ℓ} :
    (P : AttemptReservation → Type ℓ) (xs : List AttemptReservation) (r q : AttemptReservation)
    (ys : List AttemptReservation)
    → All P (xs ++ r ∷ ys)
    → (P r → P q)
    → P r × All P (xs ++ q ∷ ys)
All_middle P [] r q ys h f = (h.0, (f h.0, h.1))
All_middle P (x ∷ xs) r q ys h f =
    let rest = All_middle P xs r q ys h.1 f in (rest.0, (h.0, rest.1))

complete_again :
    (l : AttemptLimiter) (r : AttemptReservation) (kind : CompletionKind) (cleared : List String)
    (now : ℕ)
    → r.is_done ≡ true
    → complete l r kind cleared now ≡ (l, r)
unfolding complete
complete_again l r kind cleared now e = ground arith

complete_once :
    (l : AttemptLimiter) (r : AttemptReservation) (kind : CompletionKind) (cleared : List String)
    (now : ℕ)
    → r.is_done ≡ false
    → complete l r kind cleared now
      ≡ (complete_locked l r.keys kind cleared now, record r { is_done = true })
unfolding complete
complete_once l r kind cleared now e = ground arith

completing-IsBalanced :
    (l : AttemptLimiter) (before : List AttemptReservation) (r : AttemptReservation)
    (after : List AttemptReservation) (kind : CompletionKind) (cleared : List String) (now : ℕ)
    → IsBalanced (record { limiter = l; reservations = before ++ r ∷ after })
    → IsBalanced (record {
      limiter = (complete l r kind cleared now).0;
      reservations = before ++ (complete l r kind cleared now).1 ∷ after;
    })
completing-IsBalanced l before r after kind cleared now v = elim (Bool-cases r.is_done) [
  | inl done ↦ rw (complete_again l r kind cleared now done) v
  | inr open' ↦ rw (complete_once l r kind cleared now open') (released open')
]
  where
    split : IsOwned r × All IsOwned (before ++ record r { is_done = true } ∷ after)
    split =
        All_middle IsOwned before r (record r { is_done = true }) after v.owned
          (λ o. record { normal = o.normal })

    once : AreOnce r.keys
    once = subst AreOnce split.0.normal (normalized_limit_keys-AreOnce r.keys)

    released :
        r.is_done ≡ false
        → IsBalanced (record {
          limiter = complete_locked l r.keys kind cleared now;
          reservations = before ++ record r { is_done = true } ∷ after;
        })
    released open' = record {
      budget = complete_locked-IsWithinBudget l r.keys kind cleared now v.budget;
      owned = split.1;
      balance = λ j.
          unfold complete_locked open_count in
          rw split.0.normal (
            ground (
              arith,
              complete_keys-in_flight l.config now kind cleared r.keys j l.entries once,
              v.balance j,
              open_count-append j before (r ∷ after),
              open_count-append j before (record r { is_done = true } ∷ after),
            ));
    }

resetting-IsBalanced :
    (s : Session) (keys : List String) (now : ℕ)
    → IsBalanced s
    → IsBalanced (record s { limiter = reset s.limiter keys now })
unfolding reset step
resetting-IsBalanced s keys now v = record {
  budget = step-IsWithinBudget s.limiter (now, resets keys) v.budget;
  owned = v.owned;
  balance = λ j.
      reset_keys-in_flight s.limiter.config now (normalized_limit_keys keys) j s.limiter.entries
      ∙ v.balance j;
}

Step-IsBalanced : {s t : Session} → Step s t → IsBalanced s → IsBalanced t
Step-IsBalanced {s} (reserving keys now e) v = rw e (reserving-IsBalanced s keys now v)
Step-IsBalanced {s} (completing before r after kind cleared now e e') v = rw e' (
    completing-IsBalanced s.limiter before r after kind cleared now
      (subst (λ rs. IsBalanced (record { limiter = s.limiter; reservations = rs })) e v))
Step-IsBalanced {s} (resetting keys now e) v = rw e (resetting-IsBalanced s keys now v)

Reach-IsBalanced : {s t : Session} → Reach s t → IsBalanced s → IsBalanced t
Reach-IsBalanced here v = v
Reach-IsBalanced (next r st) v = Step-IsBalanced st (Reach-IsBalanced r v)

abbrev pub fresh : AttemptLimiter → Session
fresh l = record { limiter = l; reservations = [] }

new_entries :
    (limit : AttemptLimit) (l : AttemptLimiter)
    → new_attempt_limiter limit ≡ some l
    → l.entries ≡ []
unfolding new_attempt_limiter
new_entries limit l e = ground arith

-- From a limiter that the constructor accepts, through any reservations, completions (repeated
-- ones too) and resets at any times: each key has as many attempts in flight as there are
-- reservations that hold it and are not completed.
pub in_flight-open_count :
    (limit : AttemptLimit) (l : AttemptLimiter) (s : Session)
    → new_attempt_limiter limit ≡ some l
    → Reach (fresh l) s
    → (key : String) → in_flight_of key s.limiter.entries ≡ open_count key s.reservations
in_flight-open_count limit l s e r key =
    (Reach-IsBalanced r (record {
      budget = new_attempt_limiter-IsWithinBudget limit l e;
      owned = tt;
      balance = λ j. rw (new_entries limit l e) (unfold in_flight_of lookup open_count in refl);
    })).balance
      key
