-- ===== src/Server/Valid/Lists.antt =====
-- Lists of pointers, and what a write to the heap leaves there.
use mod_server.Prelude.{
  ℕ, ◌≤◌, ◌<◌, ◌≡◌, ◌≢◌, ◌⊎◌, inl, inr, refl, sym, ◌∙◌, Option, some, List, [], ◌∷◌, ◌++◌, arith,
  ◌==◌, if◌then◌else◌, Bool-cases,
}
use mod_server.Prelude.Int.{pos}
use mod_server.Prelude.Fault.{ok}
use mod_server.Server.FdSet.{fd_setsize}
use mod_server.Server.Session.{Session}
use mod_server.Server.Store.{raise_max_fd, remove_from_vector}
use mod_server.Server.Valid.{Member, Distinct}

pub heap_cases :
    {H : Type 0} (heap : ℕ → Option (Session H)) (p q : ℕ) (x : Option (Session H)) (t : Session H)
    → (if p == q then x else heap q) ≡ some t
    → ((p ≡ q) × (x ≡ some t)) ⊎ ((p ≢ q) × (heap q ≡ some t))
heap_cases heap p q x t e = elim (Bool-cases (p == q)) [
  | inl same ↦ inl (ground arith, ground arith)
  | inr other ↦ inr (ground arith, ground arith)
]

pub Member-append : (p : ℕ) (xs ys : List ℕ) → Member p xs → Member p (xs ++ ys)
Member-append p (x ∷ xs) ys (inl e) = inl e
Member-append p (x ∷ xs) ys (inr m) = inr (Member-append p xs ys m)
Member-append p [] ys m = absurd m

pub Member-concat : (p q : ℕ) (xs : List ℕ) → Member p (xs ++ q ∷ []) → Member p xs ⊎ (p ≡ q)
Member-concat p q [] (inl e) = inr e
Member-concat p q [] (inr m) = absurd m
Member-concat p q (x ∷ xs) (inl e) = inl (inl e)
Member-concat p q (x ∷ xs) (inr m) = elim (Member-concat p q xs m) [
  | inl m' ↦ inl (inr m')
  | inr e ↦ inr e
]

pub Member-last : (q : ℕ) (xs : List ℕ) → Member q (xs ++ q ∷ [])
Member-last q [] = inl refl
Member-last q (x ∷ xs) = inr (Member-last q xs)

pub Distinct-concat :
    (q : ℕ) (xs : List ℕ) → Distinct xs → ¬ (Member q xs) → Distinct (xs ++ q ∷ [])
Distinct-concat q [] d n = (λ m. m, tt)
Distinct-concat q (x ∷ xs) (out, d) n = (
  λ m. elim (Member-concat x q xs m) [ inl m' ↦ out m' | inr e ↦ n (inl (sym e)) ],
  Distinct-concat q xs d (λ m. n (inr m)),
)

-- What `RemoveFromVector` gives on a member: the others, each once.
pub record Removed (p : ℕ) (xs ys : List ℕ) : Type 0 where
  pub was : (q : ℕ) → Member q ys → Member q xs
  pub stays : (q : ℕ) → q ≢ p → Member q xs → Member q ys
  pub gone : ¬ (Member p ys)
  pub distinct : Distinct ys

pub remove-Removed :
    (p : ℕ) (xs : List ℕ)
    → Distinct xs
    → Member p xs
    → (ys : List ℕ) × (remove_from_vector p xs ≡ ok ys) × Removed p xs ys
unfolding remove_from_vector
remove-Removed p [] d m = absurd m
remove-Removed p (x ∷ xs) (out, d) m = elim (Bool-cases (x == p)) [
  | inl here ↦ (xs, rw here, first (ground arith))
  | inr there ↦
      let (ys, e, r) = remove-Removed p xs d (later (ground arith) m) in
      (x ∷ ys, rw (there, e), next (ground arith) ys r)
]
  where
    first : x ≡ p → Removed p (x ∷ xs) xs
    first e = record {
      was = λ q m'. inr m';
      stays = λ q ne m'. elim m' [ inl f ↦ absurd (ne (f ∙ e)) | inr m'' ↦ m'' ];
      gone = λ m'. out (rw e m');
      distinct = d;
    }

    later : x ≢ p → Member p (x ∷ xs) → Member p xs
    later ne (inl f) = absurd (ne (sym f))
    later ne (inr m') = m'

    next : x ≢ p → (ys : List ℕ) → Removed p xs ys → Removed p (x ∷ xs) (x ∷ ys)
    next ne ys r = record {
      was = λ q m'. elim m' [ inl f ↦ inl f | inr m'' ↦ inr (r.was q m'') ];
      stays = λ q other m'. elim m' [ inl f ↦ inl f | inr m'' ↦ inr (r.stays q other m'') ];
      gone = λ m'. elim m' [ inl f ↦ ne (sym f) | inr m'' ↦ r.gone m'' ];
      distinct = (λ m'. out (r.was x m'), r.distinct);
    }

pub raise_max_fd_lem :
    (n max_fd : ℕ)
    → n < fd_setsize
    → (max_fd ≤ raise_max_fd (pos n) max_fd) × (n < raise_max_fd (pos n) max_fd)
unfolding raise_max_fd
raise_max_fd_lem n max_fd h = ground arith
