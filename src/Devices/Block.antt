-- ===== src/Devices/Block.antt =====
-- crates/aegishv-devices/src/block.rs: a disk image that can be read only, in sectors. A `usize` has
-- 64 bits.
pub mod Read
use aegis_hv.Common.{
  ℕ, zero, suc, ◌+◌, ◌-◌, ◌%◌, Bool, true, false, ◌&&◌, ◌||◌, not, Option, none, some, List, [],
  ◌∷◌, ◌++◌, length, take, ltb, leb, ◌==◌, if◌then◌else◌, Result, ok, err, ok_or, fail_if, ◌>>=◌,
  ◌>>◌, Method,
}
use aegis_hv.Common.Word.{checked_add, checked_mul, is_power_of_two}
use aegis_hv.Devices.{DeviceErrorKind, unsupported, out_of_bounds}

pub record BlockRequest : Type 0 where
  pub sector : ℕ
  pub sector_count : ℕ
  pub write : Bool

pub record ReadOnlyBlockImage : Type 0 where
  pub bytes : List ℕ
  pub sector_size : ℕ

-- `ReadOnlyBlockImage::new`
unfoldable pub new_image : List ℕ → ℕ → Result ReadOnlyBlockImage DeviceErrorKind
unfolding is_power_of_two
new_image bytes sector_size = do
  fail_if
      (sector_size == 0
        || not (is_power_of_two 32 sector_size)
        || not (length bytes % sector_size == 0))
      out_of_bounds
  ok (record { bytes = bytes; sector_size = sector_size })

abbrev pub drop : ℕ → List ℕ → List ℕ
drop zero xs = xs
drop (suc n) [] = []
drop (suc n) (x ∷ xs) = drop n xs

-- `get(start..end)`
abbrev pub slice : List ℕ → ℕ → ℕ → Option (List ℕ)
slice xs start stop =
    if leb start stop && leb stop (length xs)
    then some (take (stop - start) (drop start xs))
    else none

-- `read` as far as it may fail: the length of the request and the bytes of the image.
unfoldable pub read_slice :
    ReadOnlyBlockImage → BlockRequest → ℕ → Result (ℕ × List ℕ) DeviceErrorKind
read_slice image request room = do
  fail_if request.write unsupported
  bytes ← ok_or (checked_mul 32 request.sector_count image.sector_size) out_of_bounds
  fail_if (ltb room bytes) out_of_bounds
  start ← ok_or (checked_mul 64 request.sector image.sector_size) out_of_bounds
  stop ← ok_or (checked_add start bytes) out_of_bounds
  found ← ok_or (slice image.bytes start stop) out_of_bounds
  ok (bytes, found)

-- `read`, with the buffer `out` that it writes to.
unfoldable pub read : ReadOnlyBlockImage → BlockRequest → Method (List ℕ) DeviceErrorKind (List ℕ)
unfolding read_slice
read image request out = elim (read_slice image request (length out)) [
  | err e ↦ (err e, out)
  | ok (bytes, found) ↦ let out' = found ++ drop bytes out in (ok (take bytes out'), out')
]
