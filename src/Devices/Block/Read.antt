-- ===== src/Devices/Block/Read.antt =====
-- A read copies the sectors of the image that it names.
use aegis_hv.Common.{
  ℕ, zero, suc, ◌+◌, ◌-◌, ◌*◌, ◌<◌, ◌≤◌, ◌^◌, true, false, ◌&&◌, List, [], ◌∷◌, ◌++◌, length, take,
  ltb, leb, ok, err, ◌≡◌, ◌⊎◌, inl, inr, refl, sym, ap, ◌∙◌, arith, Bool-cases,
}
use aegis_hv.Common.Word.{u64_mod}
use aegis_hv.Devices.{unsupported, out_of_bounds}
use aegis_hv.Devices.Block.{BlockRequest, ReadOnlyBlockImage, drop, read_slice, read}

take-drop : (n : ℕ) (xs : List ℕ) → take n xs ++ drop n xs ≡ xs
take-drop zero xs = refl
take-drop (suc n) [] = refl
take-drop (suc n) (x ∷ xs) = ap (λ ys. x ∷ ys) (take-drop n xs)

length-take : (n : ℕ) (xs : List ℕ) → n ≤ length xs → length (take n xs) ≡ n
length-take zero xs h = refl
length-take (suc n) [] h = absurd (omega (arith, h))
length-take (suc n) (x ∷ xs) h = ap suc (length-take n xs (omega (arith, h)))

length-drop : (n : ℕ) (xs : List ℕ) → n ≤ length xs → n + length (drop n xs) ≡ length xs
length-drop zero xs h = omega arith
length-drop (suc n) [] h = absurd (omega (arith, h))
length-drop (suc n) (x ∷ xs) h = omega (arith, length-drop n xs (omega (arith, h)))

take-append : (xs ys : List ℕ) (n : ℕ) → length xs ≡ n → take n (xs ++ ys) ≡ xs
take-append [] ys zero h = refl
take-append [] ys (suc n) h = absurd (omega (arith, h))
take-append (x ∷ xs) ys zero h = absurd (omega (arith, h))
take-append (x ∷ xs) ys (suc n) h = ap (λ zs. x ∷ zs) (take-append xs ys n (omega (arith, h)))

-- The length of a request and where it starts.
abbrev pub size_of : ReadOnlyBlockImage → BlockRequest → ℕ
size_of image request = request.sector_count * image.sector_size

abbrev pub start_of : ReadOnlyBlockImage → BlockRequest → ℕ
start_of image request = request.sector * image.sector_size

-- The request has fewer than 2 ^ 32 bytes, as `checked_mul` on `u32` demands, and is inside the
-- image and inside a buffer of so many bytes.
abbrev pub IsInside : ReadOnlyBlockImage → BlockRequest → ℕ → Type 0
IsInside image request room =
    (size_of image request < 2 ^ 32)
    × (size_of image request ≤ room)
    × (start_of image request + size_of image request ≤ length image.bytes)

inside_cases :
    (n start room l : ℕ)
    → ((n < 2 ^ 32) × (n ≤ room) × (start + n ≤ l))
      ⊎ (¬ ((n < 2 ^ 32) × (n ≤ room) × (start + n ≤ l)))
inside_cases n start room l =
    elim (Bool-cases (ltb n (2 ^ 32) && leb n room && leb (start + n) l)) [
      | inl all ↦ inl (ground (arith, all))
      | inr one_not ↦ inr (λ h. ground (arith, one_not, h))
    ]

read_slice-inside :
    (image : ReadOnlyBlockImage) (request : BlockRequest) (room : ℕ)
    → length image.bytes < u64_mod
    → request.write ≡ false
    → IsInside image request room
    → read_slice image request room
      ≡ ok (
        size_of image request,
        take (size_of image request) (drop (start_of image request) image.bytes),
      )
unfolding read_slice
read_slice-inside image request room small reads (few, place, inside) =
    let n = size_of image request in
    let start = start_of image request in
    let a : ltb n (2 ^ 32) ≡ true = ground (arith, few) in
    let b : ltb room n ≡ false = ground (arith, place) in
    let c : ltb start (2 ^ 64) ≡ true = ground (arith, small, inside) in
    let d : ltb (start + n) u64_mod ≡ true = ground (arith, small, inside) in
    let e : (leb start (start + n) && leb (start + n) (length image.bytes)) ≡ true =
      ground (arith, inside) in
    let f : start + n - start ≡ n = omega arith in rw (read_slice, reads, a, b, c, d, e, f) refl

read_slice-outside :
    (image : ReadOnlyBlockImage) (request : BlockRequest) (room : ℕ)
    → request.write ≡ false
    → ¬ IsInside image request room
    → read_slice image request room ≡ err out_of_bounds
unfolding read_slice
read_slice-outside image request room reads outside =
    let n = size_of image request in
    let start = start_of image request in
    let inside = leb start (start + n) && leb (start + n) (length image.bytes) in
    elim (Bool-cases (ltb n (2 ^ 32))) [
      | inr many ↦ rw (read_slice, reads, many) refl
      | inl few ↦ elim (Bool-cases (ltb room n)) [
        | inl short ↦ rw (read_slice, reads, few, short) refl
        | inr place ↦ elim (Bool-cases (ltb start (2 ^ 64))) [
          | inr far ↦ rw (read_slice, reads, few, place, far) refl
          | inl near ↦ elim (Bool-cases (ltb (start + n) u64_mod)) [
            | inr far ↦ rw (read_slice, reads, few, place, near, far) refl
            | inl near' ↦ elim (Bool-cases inside) [
              | inr out ↦ rw (read_slice, reads, few, place, near, near', out) refl
              | inl is ↦ absurd (outside (ground (arith, few, place, is)))
            ]
          ]
        ]
      ]
    ]

-- What a read that is inside in this sense does.
abbrev pub Copies : ReadOnlyBlockImage → BlockRequest → List ℕ → Type 0
Copies image request out =
    (before found after old rest : List ℕ) × (image.bytes ≡ before ++ (found ++ after))
    × (length before ≡ start_of image request)
    × (length found ≡ size_of image request)
    × (out ≡ old ++ rest)
    × (length old ≡ size_of image request)
    × (read image request out ≡ (ok found, found ++ rest))

read-Copies :
    (image : ReadOnlyBlockImage) (request : BlockRequest) (out : List ℕ)
    → length image.bytes < u64_mod
    → request.write ≡ false
    → IsInside image request (length out)
    → Copies image request out
unfolding read
read-Copies image request out small reads (few, place, reach) =
    let n = size_of image request in
    let start = start_of image request in
    let behind = drop start image.bytes in
    let found = take n behind in
    let enough : n ≤ length behind =
      omega (arith, length-drop start image.bytes (omega (arith, reach)), reach) in
    let size = length-take n behind enough in
    (
      take start image.bytes,
      found,
      drop n behind,
      take n out,
      drop n out,
      sym (
          ap (λ ys. take start image.bytes ++ ys) (take-drop n behind)
          ∙ take-drop start image.bytes),
      length-take start image.bytes (omega (arith, reach)),
      size,
      sym (take-drop n out),
      length-take n out place,
      rw
          (
            read,
            read_slice-inside image request (length out) small reads (few, place, reach),
            take-append found (drop n out) n size,
          )
          refl,
    )

-- For an image of fewer than 2 ^ 64 bytes: a request to write is refused as unsupported. A request
-- to read fewer than 2 ^ 32 bytes that lies inside the image and fits into the buffer returns the
-- bytes of its sectors and copies them to the front of the buffer, whose rest stays. Any other
-- request to read, also one that is longer, is refused as out of bounds, and the buffer stays as it
-- is.
pub read_lem :
    (image : ReadOnlyBlockImage) (request : BlockRequest) (out : List ℕ)
    → length image.bytes < u64_mod
    → ((request.write ≡ true) × (read image request out ≡ (err unsupported, out)))
      ⊎ ((request.write ≡ false) × IsInside image request (length out) × Copies image request out)
      ⊎ ((request.write ≡ false)
          × (¬ IsInside image request (length out))
          × (read image request out ≡ (err out_of_bounds, out)))
unfolding read read_slice
read_lem image request out small = elim (Bool-cases request.write) [
  | inl writes ↦ inl (writes, rw (read, writes) refl)
  | inr reads ↦
      inr
        (elim (inside_cases (size_of image request) (start_of image request) (length out)
          (length image.bytes)) [
            | inl inside ↦ inl (reads, inside, read-Copies image request out small reads inside)
            | inr outside ↦ inr (
              reads,
              outside,
              rw (read, read_slice-outside image request (length out) reads outside) refl,
            )
          ])
]
