-- ===== src/Trap/Storm/Window.antt =====
-- What the guard lets through within one window, and after it.
use native.Mathlib.Decide.{dec_lt}
use aegis_hv.Common.{
  ap, zero, suc, sym, ◌∙◌, ℕ, ◌+◌, ◌-◌, ◌≤◌, ◌<◌, none, some, List, [], ◌∷◌, leb, min,
  if◌then◌else◌, ◌≡◌, refl, arith, All, length, ◌≢◌,
}
use aegis_hv.Common.BTreeMap.{get, insert, get-insert, get-insert_self}
use aegis_hv.Common.Word.{u32_max}
use aegis_hv.Trap.Storm.{
  TrapStormKey, TrapStormBucket, TrapStormDecision, TrapStormGuard, allow, throttle, observe,
  storm_key, renew, count_hit, bucket_at, storm_key_eq_iff,
}

-- The answers to hits on one key at the given times.
pub observe_all : TrapStormKey → List ℕ → TrapStormGuard → List TrapStormDecision
observe_all key [] g = []
observe_all key (now ∷ times) g =
    let (decision, g') = observe key now g in decision ∷ observe_all key times g'

-- A window of the guard that began at `start`.
abbrev pub Within : ℕ → ℕ → ℕ → Type 0
Within start window now = (start ≤ now) × (now < start + window)

-- `budget` hits are let through, and every later one is throttled.
abbrev pub answers : TrapStormDecision → ℕ → ℕ → List TrapStormDecision
answers stop budget zero = []
answers stop zero (suc n) = stop ∷ answers stop zero n
answers stop (suc budget) (suc n) = allow ∷ answers stop budget n

answers_step :
    (stop : TrapStormDecision) (limit hits n : ℕ)
    → limit < u32_max
    → answers stop (limit - hits) (suc n)
      ≡ (if leb (min (hits + 1) u32_max) limit then allow else stop)
        ∷ answers stop (limit - min (hits + 1) u32_max) n
answers_step stop limit hits n h = elim (dec_lt hits limit) [
  | yes more ↦
      let e : limit - hits ≡ suc (limit - hits - 1) = omega arith in
      let e' : limit - min (hits + 1) u32_max ≡ limit - hits - 1 = omega arith in
      rw (e, e') (ground arith)
  | no over ↦
      let e : limit - hits ≡ 0 = omega arith in
      let e' : limit - min (hits + 1) u32_max ≡ 0 = omega arith in rw (e, e') (ground arith)
]

bucket_in_window :
    (key : TrapStormKey) (start hits now : ℕ) (g : TrapStormGuard)
    → get key g.buckets ≡ some (record { window_start_ms = start; hits = hits })
    → Within start g.window_ms now
    → count_hit (renew g.window_ms now (bucket_at key now g))
      ≡ record { window_start_ms = start; hits = min (hits + 1) u32_max }
unfolding count_hit renew
bucket_in_window key start hits now g e w = ground arith

-- `observe` once its bucket is known.
abbrev verdict :
    TrapStormKey → TrapStormGuard → TrapStormBucket → TrapStormDecision × TrapStormGuard
verdict key g b = (
  (if leb b.hits g.max_hits then allow else throttle g.mode),
  record g { buckets = insert key b g.buckets },
)

observe-verdict :
    (key : TrapStormKey) (now : ℕ) (g : TrapStormGuard) {b : TrapStormBucket}
    → count_hit (renew g.window_ms now (bucket_at key now g)) ≡ b
    → observe key now g ≡ verdict key g b
unfolding observe
observe-verdict key now g e = ap (verdict key g) e

in_window :
    (key : TrapStormKey) (start hits : ℕ) (times : List ℕ) (g : TrapStormGuard)
    → get key g.buckets ≡ some (record { window_start_ms = start; hits = hits })
    → g.max_hits < u32_max
    → All (Within start g.window_ms) times
    → observe_all key times g ≡ answers (throttle g.mode) (g.max_hits - hits) (length times)
unfolding observe_all
in_window key start hits [] g e h w = refl
in_window key start hits (now ∷ times) g e h w =
    let b : TrapStormBucket = record { window_start_ms = start; hits = min (hits + 1) u32_max } in
    rw
      (
        answers_step (throttle g.mode) g.max_hits hits (length times) h,
        observe-verdict key now g (bucket_in_window key start hits now g e w.0),
      )
      (ap (λ rest. (if leb b.hits g.max_hits then allow else throttle g.mode) ∷ rest)
        (in_window key start (min (hits + 1) u32_max) times (verdict key g b).1
          (get-insert_self key b g.buckets) h w.1))

fresh_bucket :
    (key : TrapStormKey) (start : ℕ) (g : TrapStormGuard)
    → get key g.buckets ≡ none
    → 0 < g.window_ms
    → count_hit (renew g.window_ms start (bucket_at key start g))
      ≡ record { window_start_ms = start; hits = 1 }
unfolding count_hit renew
fresh_bucket key start g e p = ground arith

-- Within the window that a first hit opens, exactly the first `max_hits` hits on a key are let
-- through, and every later one is throttled by the guard's mode (for a limit below 2^32 - 1,
-- where the saturating counter can pass it).
pub observe_all-fresh :
    (key : TrapStormKey) (start : ℕ) (times : List ℕ) (g : TrapStormGuard)
    → get key g.buckets ≡ none
    → 0 < g.window_ms
    → g.max_hits < u32_max
    → All (Within start g.window_ms) times
    → observe_all key (start ∷ times) g ≡ answers (throttle g.mode) g.max_hits (suc (length times))
unfolding observe_all
observe_all-fresh key start times g e p h w =
    let b : TrapStormBucket = record { window_start_ms = start; hits = 1 } in
    let whole : g.max_hits ≡ g.max_hits - 0 = omega arith in
    rw (observe-verdict key start g (fresh_bucket key start g e p)) (
      ap (λ rest. (if leb 1 g.max_hits then allow else throttle g.mode) ∷ rest)
        (in_window key start 1 times (verdict key g b).1 (get-insert_self key b g.buckets) h w)
      ∙ sym (
          ap (λ k. answers (throttle g.mode) k (suc (length times))) whole
          ∙ answers_step (throttle g.mode) g.max_hits 0 (length times) h))

-- A hit after the window of its bucket is over is let through and opens a window of its own; a
-- hit never changes the bucket of another key, nor the limits of the guard.
pub observe_expired :
    (key other : TrapStormKey) (now : ℕ) (b : TrapStormBucket) (g : TrapStormGuard)
    → get key g.buckets ≡ some b
    → b.window_start_ms + g.window_ms ≤ now
    → 0 < g.max_hits
    → other ≢ key
    → let (decision, g') = observe key now g in
      (decision ≡ allow)
      × (get key g'.buckets ≡ some (record { window_start_ms = now; hits = 1 }))
      × (get other g'.buckets ≡ get other g.buckets)
      × (g'.max_hits ≡ g.max_hits)
      × (g'.window_ms ≡ g.window_ms)
unfolding observe
observe_expired key other now b g e h p ne = ground (
  arith,
  get-insert_self key (count_hit (renew g.window_ms now (bucket_at key now g))) g.buckets,
  get-insert key other (count_hit (renew g.window_ms now (bucket_at key now g))) g.buckets,
  storm_key_eq_iff key other,
)
