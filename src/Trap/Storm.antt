-- ===== src/Trap/Storm.antt =====
-- src/trap/storm.rs: the guard that throttles a page whose trap fires too often.
pub mod Window
use aegis_hv.Common.{
  ℕ, ◌+◌, ◌-◌, Bool, true, false, ◌&&◌, ◌||◌, Option, none, some, [], ltb, leb, min, ◌==◌,
  if◌then◌else◌, Result, ok, err, ◌≡◌, ◌>>=◌, ◌>>◌, fail_if, arith, ◌↔◌,
}
use aegis_hv.Common.BTreeMap.{BTreeMap, Key, get, insert}
use aegis_hv.Common.Text.{Text, text_eq, text_eq_iff, text_lt, is_blank}
use aegis_hv.Common.Word.{u32_max}
use aegis_hv.Trap.Errors.{TrapErrorKind, malformed_input}

pub data TrapStormMode : Type 0 where
  fail_open fail_closed : TrapStormMode

pub record TrapStormKey : Type 0 where
  pub owner_vm : Text
  pub address_space : Text
  pub page : ℕ
  pub vcpu_id : Option ℕ

-- `TrapStormKey::new`
unfoldable pub new_key : Text → Text → ℕ → Option ℕ → Result TrapStormKey TrapErrorKind
new_key owner_vm address_space page vcpu_id =
    if is_blank owner_vm || is_blank address_space
    then err malformed_input
    else ok (record {
      owner_vm = owner_vm;
      address_space = address_space;
      page = page;
      vcpu_id = vcpu_id;
    })

pub data TrapStormDecision : Type 0 where
  allow throttle_fail_open throttle_fail_closed : TrapStormDecision

unfoldable pub throttled : TrapStormDecision → Bool
throttled allow = false
throttled throttle_fail_open = true
throttled throttle_fail_closed = true

pub record TrapStormBucket : Type 0 where
  pub window_start_ms : ℕ
  pub hits : ℕ

unfoldable pub option_eq : Option ℕ → Option ℕ → Bool
option_eq none none = true
option_eq none (some b) = false
option_eq (some a) none = false
option_eq (some a) (some b) = a == b

-- `None` comes before every `Some`.
unfoldable pub option_lt : Option ℕ → Option ℕ → Bool
option_lt a none = false
option_lt none (some b) = true
option_lt (some a) (some b) = ltb a b

unfoldable pub storm_key_eq : TrapStormKey → TrapStormKey → Bool
unfolding option_eq
storm_key_eq a b =
    text_eq a.owner_vm b.owner_vm
    && text_eq a.address_space b.address_space
    && a.page == b.page
    && option_eq a.vcpu_id b.vcpu_id

-- The derived order: field by field.
unfoldable pub storm_key_lt : TrapStormKey → TrapStormKey → Bool
unfolding option_eq option_lt
storm_key_lt a b =
    text_lt a.owner_vm b.owner_vm
    || (text_eq a.owner_vm b.owner_vm
        && (text_lt a.address_space b.address_space
            || (text_eq a.address_space b.address_space
                && (ltb a.page b.page || (a.page == b.page && option_lt a.vcpu_id b.vcpu_id)))))

option_eq_iff : (a b : Option ℕ) → (option_eq a b ≡ true) ↔ (a ≡ b)
unfolding option_eq
option_eq_iff a b = ground arith

pub storm_key_eq_iff : (a b : TrapStormKey) → (storm_key_eq a b ≡ true) ↔ (a ≡ b)
unfolding storm_key_eq
storm_key_eq_iff a b = ground (
  arith,
  text_eq_iff a.owner_vm b.owner_vm,
  text_eq_iff a.address_space b.address_space,
  option_eq_iff a.vcpu_id b.vcpu_id,
)

instance abbrev pub storm_key : Key TrapStormKey
storm_key = record { beq = storm_key_eq; before = storm_key_lt; beq_iff = storm_key_eq_iff }

pub record TrapStormGuard : Type 0 where
  pub window_ms : ℕ
  pub max_hits : ℕ
  pub mode : TrapStormMode
  pub buckets : BTreeMap TrapStormKey TrapStormBucket

-- `TrapStormGuard::new`
unfoldable pub new_guard : ℕ → ℕ → TrapStormMode → Result TrapStormGuard TrapErrorKind
new_guard window_ms max_hits mode = do
  fail_if (window_ms == 0) malformed_input
  fail_if (max_hits == 0) malformed_input
  ok (record { window_ms = window_ms; max_hits = max_hits; mode = mode; buckets = [] })

-- The default guard.
abbrev pub default_guard : TrapStormGuard
default_guard = record { window_ms = 1000; max_hits = 256; mode = fail_closed; buckets = [] }

-- `entry(key).or_insert(…)`
abbrev pub bucket_at : TrapStormKey → ℕ → TrapStormGuard → TrapStormBucket
bucket_at key now_ms g = elim (get key g.buckets) [
  | some b ↦ b
  | none ↦ record { window_start_ms = now_ms; hits = 0 }
]

-- A bucket whose window is over starts anew.
unfoldable pub renew : ℕ → ℕ → TrapStormBucket → TrapStormBucket
renew window_ms now_ms b =
    if leb window_ms (now_ms - b.window_start_ms)
    then record { window_start_ms = now_ms; hits = 0 }
    else b

-- One more hit; `saturating_add` on `u32`.
unfoldable pub count_hit : TrapStormBucket → TrapStormBucket
count_hit b = record b { hits = min (b.hits + 1) u32_max }

-- The answer to a hit beyond the limit.
abbrev pub throttle : TrapStormMode → TrapStormDecision
throttle fail_open = throttle_fail_open
throttle fail_closed = throttle_fail_closed

-- `TrapStormGuard::observe`
unfoldable pub observe : TrapStormKey → ℕ → TrapStormGuard → TrapStormDecision × TrapStormGuard
unfolding renew count_hit
observe key now_ms g =
    let bucket = count_hit (renew g.window_ms now_ms (bucket_at key now_ms g)) in
    (
      (if leb bucket.hits g.max_hits then allow else throttle g.mode),
      record g { buckets = insert key bucket g.buckets },
    )
