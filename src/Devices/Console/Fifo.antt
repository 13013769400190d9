-- ===== src/Devices/Console/Fifo.antt =====
-- The console answers like a list of bytes that has room for so many.
use native.Mathlib.Nat.{mod-lt}
use aegis_hv.Common.{
  ℕ, zero, suc, ◌+◌, ◌-◌, ◌%◌, ◌<◌, ◌≤◌, Option, none, some, List, [], ◌∷◌, ◌++◌, length,
  length-set, length-replicate, ◌==◌, if◌then◌else◌, Result, ok, err, ◌≡◌, refl, sym, ap, arith,
  Bool-cases, inl, inr,
}
use aegis_hv.Core.Window.{window, window-push}
use aegis_hv.Devices.{DeviceErrorKind, capacity_exceeded}
use aegis_hv.Devices.Console.{ConsoleQueue, new_queue, push_byte, pop_byte}

pub data Use : Type 0 where
  pushes : ℕ → Use
  pops : Use

pub data Reply : Type 0 where
  pushed : Result (Unit {0}) DeviceErrorKind → Reply
  popped : Option ℕ → Reply

unfoldable pub serve : Use → ConsoleQueue → Reply × ConsoleQueue
unfolding push_byte pop_byte
serve (pushes byte) q = (pushed (push_byte byte q).0, (push_byte byte q).1)
serve pops q = (popped (pop_byte q).0, (pop_byte q).1)

-- What a list of at most `n` bytes does.
abbrev pub serve_list : ℕ → Use → List ℕ → Reply × List ℕ
serve_list n (pushes byte) xs =
    if length xs == n
    then (pushed (err capacity_exceeded), xs)
    else (pushed (ok tt), xs ++ (byte ∷ []))
serve_list n pops [] = (popped none, [])
serve_list n pops (x ∷ xs) = (popped (some x), xs)

unfoldable pub replies : List Use → ConsoleQueue → List Reply
unfolding serve
replies [] q = []
replies (u ∷ uses) q = (serve u q).0 ∷ replies uses (serve u q).1

unfoldable pub list_replies : ℕ → List Use → List ℕ → List Reply
list_replies n [] xs = []
list_replies n (u ∷ uses) xs = (serve_list n u xs).0 ∷ list_replies n uses (serve_list n u xs).1

-- The bytes that wait, the oldest one first.
abbrev contents : ConsoleQueue → List ℕ
contents q = window 0 q.bytes q.read q.len

abbrev IsQueue : ℕ → ConsoleQueue → Type 0
IsQueue n q = (length q.bytes ≡ n) × (q.len ≤ n) × (0 < n → q.read < n)

length-window : (xs : List ℕ) (head n : ℕ) → length (window 0 xs head n) ≡ n
unfolding window
length-window xs head zero = refl
length-window xs head (suc n) = ap suc (length-window xs ((head + 1) % length xs) n)

abbrev Serves : ℕ → Use → ConsoleQueue → Type 0
Serves n u q =
    (serve_list n u (contents q) ≡ ((serve u q).0, contents (serve u q).1))
    × IsQueue n (serve u q).1

push-Serves : (n byte : ℕ) (q : ConsoleQueue) → IsQueue n q → Serves n (pushes byte) q
unfolding serve push_byte
push-Serves n byte q (size, few, placed) = elim (Bool-cases (q.len == length q.bytes)) [
  | inl full ↦
      rw (length-window q.bytes q.read q.len, sym size, full)
        (
          refl,
          (
            refl,
            omega (arith, size, few),
            λ p. omega (arith, size, placed (omega (arith, size, p))),
          ),
        )
  | inr room ↦
      let slot = (q.read + q.len) % length q.bytes in
      let space : q.len < length q.bytes = ground (arith, size, few) in
      let one : q.len + 1 ≡ suc q.len = omega arith in
      let at = placed (omega (arith, size, space)) in
      let after =
        window-push 0 q.len slot q.read q.bytes byte refl space (omega (arith, size, at)) in
      rw (length-window q.bytes q.read q.len, sym size, room, one)
        (
          ap (λ xs. (pushed (ok tt), xs)) (sym after),
          (length-set q.bytes slot byte, omega (arith, space), λ p. omega (arith, size, at)),
        )
]

pop-Serves : (n : ℕ) (q : ConsoleQueue) → IsQueue n q → Serves n pops q
unfolding serve pop_byte window
pop-Serves n q (size, few, placed) = elim (Bool-cases (q.len == 0)) [
  | inl empty ↦
      let none_left : q.len ≡ 0 = ground (arith, empty) in
      rw (pop_byte, empty, none_left) (refl, (size, omega arith, placed))
  | inr more ↦
      let rest = q.len - 1 in
      let some_len : q.len ≡ suc rest = ground (arith, more) in
      let less : suc rest - 1 ≡ rest = omega arith in
      rw (pop_byte, more, some_len, less)
        (
          refl,
          (
            size,
            omega (arith, few, some_len),
            λ p. rw (sym size) (mod-lt (q.read + 1) (omega (arith, size, p))),
          ),
        )
]

serve-Serves : (n : ℕ) (u : Use) (q : ConsoleQueue) → IsQueue n q → Serves n u q
serve-Serves n (pushes byte) q h = push-Serves n byte q h
serve-Serves n pops q h = pop-Serves n q h

replies-IsQueue :
    (n : ℕ) (uses : List Use) (q : ConsoleQueue)
    → IsQueue n q
    → replies uses q ≡ list_replies n uses (contents q)
unfolding replies list_replies
replies-IsQueue n [] q h = refl
replies-IsQueue n (u ∷ uses) q h =
    let (same, h') = serve-Serves n u q h in
    rw same (ap (λ rest. (serve u q).0 ∷ rest) (replies-IsQueue n uses (serve u q).1 h'))

-- Whatever is pushed and popped, a new console with room for `n` bytes replies as a first-in,
-- first-out list of at most `n` bytes does: it refuses a byte exactly if it is full, and it gives
-- the bytes back in order, each one once.
pub replies-new_queue :
    (n : ℕ) (uses : List Use) → replies uses (new_queue n) ≡ list_replies n uses []
unfolding window
replies-new_queue n uses =
    replies-IsQueue n uses (new_queue n) (length-replicate n 0, omega arith, λ p. p)
