-- ===== src/Core/Allocator/Fits.antt =====
-- When an insertion into the free list succeeds.
use aegis_hv.Common.{
  ℕ, suc, ◌+◌, ◌<◌, ◌≤◌, Bool, true, false, ◌||◌, Option, none, some, List, [], ◌∷◌, ◌++◌, length,
  ltb, leb, ◌==◌, Result, IsOk, ok, ok_or, ◌>>=◌, ◌≡◌, refl, arith, Bool-cases, inl, inr, ◌⊎◌, ◌-◌,
  err,
}
use aegis_hv.Common.Word.{checked_add, u64_mod}
use aegis_hv.Core.Errors.{CoreErrorKind, invalid_address}
use aegis_hv.Core.Allocator.FreeList.{
  PageRun, optional, join, touches_left, touches_right, place, insert_from, insert_free_run,
}
use aegis_hv.Core.Allocator.Runs.{limit, in_run, covers, IsRun, Ordered, run_end-eq, covers-below}
use aegis_hv.Core.Allocator.Join.{
  floor, behind, Left, Right, touches_left_lem, touches_right_lem, IsBefore, IsBehind,
}

-- There is room for one more run, or the run touches a free address.
abbrev pub HasRoom : Bool → PageRun → List PageRun → Type 0
HasRoom full run runs =
    (full ≡ false)
    ⊎ (covers (limit run) runs ≡ true)
    ⊎ ((0 < run.start) × (covers (run.start - 1) runs ≡ true))

-- No address of the run is free.
abbrev pub IsApart : PageRun → List PageRun → Type 0
IsApart run runs = (x : ℕ) → in_run run x ≡ true → covers x runs ≡ false

merged_ok :
    (left right : ℕ) (e : CoreErrorKind)
    → left + right < u64_mod
    → ok_or (checked_add left right) e ≡ ok (left + right)
merged_ok left right e small = ground arith

-- The case that is chosen succeeds, when a run is merged or there is room.
join-IsOk :
    (full left right : Bool) (run : PageRun) (previous : Option PageRun) (next : List PageRun)
    (lo : ℕ)
    → IsRun run
    → Ordered lo (optional previous ++ next)
    → Left lo run previous left
    → Right run next right
    → (full ≡ false) ⊎ ((left || right) ≡ true)
    → IsOk (join full run previous next left right)
unfolding join
join-IsOk full true true run (some p) (n ∷ rest) lo is (_, is_p, (_, is_n, _)) (p', e, l)
      (n', rest', e', r) room =
    let l' : limit p ≡ run.start = ground (arith, e, l) in
    let r' : limit run ≡ n.start = ground (arith, e', r) in
    rw
      (
        merged_ok p.count run.count invalid_address (omega (arith, l', r')),
        merged_ok (p.count + run.count) n.count invalid_address (omega (arith, l', r')),
      )
      tt
join-IsOk full true right run none next lo is h (p', e, l) r room = absurd (ground (arith, e))
join-IsOk full left true run previous [] lo is h l (n', rest', e, r) room =
    absurd (ground (arith, e))
join-IsOk full true false run (some p) (n ∷ rest) lo is (_, is_p, _) (p', e, l) r room =
    let l' : limit p ≡ run.start = ground (arith, e, l) in
    rw (merged_ok p.count run.count invalid_address (omega (arith, l'))) tt
join-IsOk full true false run (some p) [] lo is (_, is_p, _) (p', e, l) r room =
    let l' : limit p ≡ run.start = ground (arith, e, l) in
    rw (merged_ok p.count run.count invalid_address (omega (arith, l'))) tt
join-IsOk full false true run (some p) (n ∷ rest) lo is (_, _, (_, is_n, _)) l (n', rest', e, r)
      room =
    let r' : limit run ≡ n.start = ground (arith, e, r) in
    rw (merged_ok run.count n.count invalid_address (omega (arith, r'))) tt
join-IsOk full false true run none (n ∷ rest) lo is (_, is_n, _) l (n', rest', e, r) room =
    let r' : limit run ≡ n.start = ground (arith, e, r) in
    rw (merged_ok run.count n.count invalid_address (omega (arith, r'))) tt
join-IsOk false false false run (some p) (n ∷ rest) lo is h l r room = tt
join-IsOk false false false run (some p) [] lo is h l r room = tt
join-IsOk false false false run none (n ∷ rest) lo is h l r room = tt
join-IsOk false false false run none [] lo is h l r room = tt
join-IsOk true false false run previous next lo is h l r room = absurd (ground (arith, room))

touches_left-IsOk :
    (run : PageRun) (previous : Option PageRun) (next : List PageRun) (lo : ℕ)
    → IsRun run
    → Ordered lo (optional previous ++ next)
    → IsBefore run previous
    → IsApart run (optional previous ++ next)
    → IsOk (touches_left run previous)
unfolding touches_left
touches_left-IsOk run none next lo is h before apart = tt
touches_left-IsOk run (some p) next lo is (_, is_p, _) before apart =
    elim (Bool-cases (ltb run.start (limit p))) [
      | inl inside ↦ absurd (unfold covers in ground (arith, apart run.start, before, inside, is.0))
      | inr outside ↦ rw (run_end-eq p is_p, outside) tt
    ]

touches_right-IsOk :
    (run : PageRun) (next : List PageRun) (lo : ℕ)
    → IsRun run
    → Ordered lo next
    → IsBehind run next
    → IsApart run next
    → IsOk (touches_right (limit run) next)
unfolding touches_right
touches_right-IsOk run [] lo is h behind apart = tt
touches_right-IsOk run (n ∷ rest) lo is (_, is_n, _) behind apart =
    elim (Bool-cases (ltb n.start (limit run))) [
      | inl inside ↦ absurd (unfold covers in ground (arith, apart n.start, behind, inside, is_n.0))
      | inr outside ↦ rw outside tt
    ]

-- A run that touches a free address is merged.
merges :
    (full left right : Bool) (run : PageRun) (previous : Option PageRun) (next : List PageRun)
    (lo : ℕ)
    → IsRun run
    → Ordered lo (optional previous ++ next)
    → Left lo run previous left
    → Right run next right
    → HasRoom full run (optional previous ++ next)
    → (full ≡ false) ⊎ ((left || right) ≡ true)
merges full true right run previous next lo is h l r room = inr refl
merges full false true run previous next lo is h l r room = inr refl
merges full false false run previous next lo is h l r (inl some_room) = inl some_room
merges full false false run none next lo is h l r (inr (inl at_end)) =
    absurd (ground (arith, at_end, covers-below (suc (limit run)) (limit run) next r))
merges full false false run (some p) next lo is h l r (inr (inl at_end)) =
    absurd (
      unfold covers in ground (arith, at_end, l, covers-below (suc (limit run)) (limit run) next r))
merges full false false run none next lo is h l r (inr (inr at_start)) =
    absurd (ground (arith, at_start, is.0, covers-below (suc (limit run)) (run.start - 1) next r))
merges full false false run (some p) next lo is h l r (inr (inr at_start)) = absurd (
    unfold covers in
    ground (arith, at_start, l, is.0, covers-below (suc (limit run)) (run.start - 1) next r))

>>=-IsOk :
    {A B : Type 0} (r : Result A CoreErrorKind) (next : A → Result B CoreErrorKind)
    → IsOk r
    → ((a : A) → r ≡ ok a → IsOk (next a))
    → IsOk (r >>= next)
>>=-IsOk (ok a) next h k = k a refl
>>=-IsOk (err e) next h k = absurd h

IsApart-next :
    (run : PageRun) (previous : Option PageRun) (next : List PageRun)
    → IsApart run (optional previous ++ next)
    → IsApart run next
IsApart-next run none next apart x inside = apart x inside
IsApart-next run (some p) next apart x inside = unfold covers in ground (arith, apart x inside)

place-IsOk :
    (full : Bool) (run : PageRun) (previous : Option PageRun) (next : List PageRun) (lo : ℕ)
    → IsRun run
    → lo ≤ run.start
    → Ordered lo (optional previous ++ next)
    → IsBefore run previous
    → IsBehind run next
    → IsApart run (optional previous ++ next)
    → HasRoom full run (optional previous ++ next)
    → IsOk (place full run (limit run) previous next)
unfolding place
place-IsOk full run previous next lo is low h before after apart room =
    let h' = behind lo previous next h in
    >>=-IsOk (touches_left run previous) _
      (touches_left-IsOk run previous next lo is h before apart)
      (λ left l.
        >>=-IsOk (touches_right (limit run) next) _
          (touches_right-IsOk run next (floor lo previous) is h' after
            (IsApart-next run previous next apart))
          (λ right r.
            let l' = touches_left_lem lo run previous next left low h l in
            let r' = touches_right_lem (floor lo previous) run next right h' r in
            join-IsOk full left right run previous next lo is h l' r'
              (merges full left right run previous next lo is h l' r' room)))

-- The first run lies before the place: it holds no address at the edges of the run.
further :
    (full : Bool) (run : PageRun) (previous : Option PageRun) (n : PageRun) (rest : List PageRun)
    (lo : ℕ)
    → Ordered lo (optional previous ++ (n ∷ rest))
    → n.start < run.start
    → HasRoom full run (optional previous ++ (n ∷ rest))
    → HasRoom full run (n ∷ rest)
further full run none n rest lo h later room = room
further full run (some p) n rest lo (_, _, (gap, _, _)) later (inl some_room) = inl some_room
further full run (some p) n rest lo (_, _, (gap, _, _)) later (inr (inl at_end)) =
    inr (inl (unfold covers in ground (arith, at_end, gap, later)))
further full run (some p) n rest lo (_, _, (gap, _, _)) later (inr (inr at_start)) =
    inr (inr (at_start.0, unfold covers in ground (arith, at_start.1, gap, later)))

insert_from-IsOk :
    (full : Bool) (run : PageRun) (previous : Option PageRun) (next : List PageRun) (lo : ℕ)
    → IsRun run
    → lo ≤ run.start
    → Ordered lo (optional previous ++ next)
    → IsBefore run previous
    → IsApart run (optional previous ++ next)
    → HasRoom full run (optional previous ++ next)
    → IsOk (insert_from full run (limit run) previous next)
unfolding insert_from
insert_from-IsOk full run previous [] lo is low h before apart room =
    place-IsOk full run previous [] lo is low h before tt apart room
insert_from-IsOk full run previous (n ∷ rest) lo is low h before apart room =
    let deeper = insert_from full run (limit run) (some n) rest in
    elim (Bool-cases (ltb n.start run.start)) [
      | inl later ↦
          let later' : n.start < run.start = ground (arith, later) in
          let h' = behind lo previous (n ∷ rest) h in
          let (low', _, _) = h' in
          let done =
            insert_from-IsOk full run (some n) rest (floor lo previous) is
              (omega (arith, low', later')) h' later' (IsApart-next run previous (n ∷ rest) apart)
              (further full run previous n rest lo h later' room) in
          rw (later, insert_from)
            (>>=-IsOk deeper (λ out. ok (optional previous ++ out)) done (λ out e. tt))
      | inr here ↦
          rw (here, insert_from)
            (place-IsOk full run previous (n ∷ rest) lo is low h before (ground (arith, here)) apart
              room)
    ]

-- An insertion of addresses that are not free succeeds, when there is room or the run touches a
-- free address.
pub insert_free_run-IsOk :
    (capacity : ℕ) (run : PageRun) (runs : List PageRun)
    → IsRun run
    → Ordered 0 runs
    → IsApart run runs
    → HasRoom (leb capacity (length runs)) run runs
    → IsOk (insert_free_run capacity run runs)
unfolding insert_free_run
insert_free_run-IsOk capacity run runs is h apart room =
    let some_pages : (run.count == 0) ≡ false = ground (arith, is.0) in
    rw (insert_free_run, some_pages, run_end-eq run is)
      (insert_from-IsOk (leb capacity (length runs)) run none runs 0 is (omega arith) h tt apart
        room)
