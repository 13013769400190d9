-- ===== src/Core/Allocator/Pages.antt =====
-- The list of allocated pages: the search for a page and its removal.
use aegis_hv.Common.{
  ℕ, zero, suc, Bool, false, ◌||◌, none, some, List, [], ◌∷◌, ◌++◌, length, ◌==◌, ◌≡◌, ◌≢◌, refl,
  arith, Bool-cases, inl, inr, sym, All, All-imp, Pairs, Option-cases, subst,
}
use aegis_hv.Core.Allocator.{position}
use aegis_hv.Core.Allocator.FreeList.{splice, remove_at}
use aegis_hv.Core.Allocator.Runs.{in_page}

-- The address lies in one of the pages.
unfoldable pub in_pages : ℕ → List ℕ → Bool
in_pages a [] = false
in_pages a (p ∷ pages) = in_page p a || in_pages a pages

pub in_pages-nil : (a : ℕ) → in_pages a [] ≡ false
unfolding in_pages
in_pages-nil a = refl

pub in_pages-append :
    (a : ℕ) (ps qs : List ℕ) → in_pages a (ps ++ qs) ≡ (in_pages a ps || in_pages a qs)
unfolding in_pages
in_pages-append a [] qs = refl
in_pages-append a (p ∷ ps) qs = ground (arith, in_pages-append a ps qs)

position-cons :
    (page p : ℕ) (pages : List ℕ) {i : ℕ}
    → (p == page) ≡ false
    → position page (p ∷ pages) ≡ some i
    → (j : ℕ) × (position page pages ≡ some j) × (i ≡ suc j)
unfolding position
position-cons page p pages other found = elim (Option-cases (position page pages)) [
  | inl e ↦ absurd (ground (arith, rw (other, e, position) at found))
  | inr (j, e) ↦ (j, e, ground (arith, rw (other, e, position) at found))
]

-- What holds of a list whose entries are different, after the removal of the page at `i`.
abbrev Removal : ℕ → List ℕ → List ℕ → Type 0
Removal page pages out =
    All (λ q. q ≢ page) out
    × Pairs (λ p q. p ≢ q) out
    × (suc (length out) ≡ length pages)
    × ((a : ℕ) → in_pages a pages ≡ (in_page page a || in_pages a out))

pub remove_at-All {ℓ} :
    (P : ℕ → Type ℓ) (i : ℕ) (pages : List ℕ) → All P pages → All P (remove_at i pages)
unfolding remove_at splice
remove_at-All P i [] h = tt
remove_at-All P zero (p ∷ pages) h = h.1
remove_at-All P (suc i) (p ∷ pages) h = (h.0, remove_at-All P i pages h.1)

pub remove_at_lem :
    (page : ℕ) (pages : List ℕ) {i : ℕ}
    → Pairs (λ p q. p ≢ q) pages
    → position page pages ≡ some i
    → Removal page pages (remove_at i pages)
unfolding remove_at splice in_pages
remove_at_lem page [] h found = absurd (unfold position in ground (arith, found))
remove_at_lem page (p ∷ pages) {i} h found = elim (Bool-cases (p == page)) [
  | inl same ↦
      let e : p ≡ page = ground arith in
      let e' : i ≡ 0 = unfold position in ground (arith, (rw (same, position) at found)) in
      rw (e', sym e) (All-imp (λ q d e. d (sym e)) pages h.0, h.1, refl, λ a. refl)
  | inr other ↦
      let (j, found', e) = position-cons page p pages other found in
      let (fresh, apart, size, cover) = remove_at_lem page pages h.1 found' in
      let d : p ≢ page = ground (arith, other) in
      rw e (
        (d, fresh),
        (remove_at-All (λ q. p ≢ q) j pages h.0, apart),
        omega (arith, size),
        λ a. ground (arith, cover a),
      )
]

-- A page that is not in the list is not found.
pub position-none :
    (page : ℕ) (pages : List ℕ) → All (λ q. q ≢ page) pages → position page pages ≡ none
unfolding position
position-none page [] h = refl
position-none page (p ∷ pages) h =
    let other : (p == page) ≡ false = ground (arith, h.0) in
    rw (other, position-none page pages h.1) refl

-- What holds of every entry holds of a page that is found.
pub position-All {ℓ} :
    (P : ℕ → Type ℓ) (page : ℕ) (pages : List ℕ) {i : ℕ}
    → All P pages
    → position page pages ≡ some i
    → P page
position-All P page [] h found = absurd (unfold position in ground (arith, found))
position-All P page (p ∷ pages) h found = elim (Bool-cases (p == page)) [
  | inl same ↦ subst P (ground (arith, same)) h.0
  | inr other ↦
      let (j, found', e) = position-cons page p pages other found in
      position-All P page pages h.1 found'
]
