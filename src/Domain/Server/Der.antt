-- ===== src/Domain/Server/Der.antt =====
-- internal/domain/tls_server.go, derElement.
use socktrail.Base.{
  ℕ, ◌+◌, ◌-◌, ◌*◌, ◌%◌, ◌≤◌, inl, inr, ◌||◌, [], ◌∷◌, Option, none, some, Bytes, length,
  length-drop, length-take, take, drop, ltb, leb, ◌==◌, if◌then◌else◌, arith, Bool-cases, Res, ok,
  ◌>>=◌, Yields, index, slice, slice_from, index_ok, slice_ok, slice_from_ok, at,
}

-- `tag`, contents, and the bytes behind the element; `none` where the Boolean result is false.
pub record Element : Type 0 where
  pub tag : ℕ
  pub content : Bytes
  pub rest : Bytes

-- `length = length<<8 | int(c)` over the bytes.
unfoldable pub der_length : ℕ → Bytes → ℕ
der_length size [] = size
der_length size (c ∷ cs) = der_length (size * 256 + c) cs

unfoldable pub der_split : ℕ → ℕ → Bytes → Res (Option Element)
der_split tag size b = if ltb (length b) size then ok none else do
  content ← slice b 0 size
  rest ← slice_from b size
  ok (some (record { tag = tag; content = content; rest = rest }))

-- `derElement`
unfoldable pub der_element : Bytes → Res (Option Element)
unfolding der_length der_split
der_element b = if ltb (length b) 2 then ok none else do
  tag ← index b 0
  n ← index b 1
  behind ← slice_from b 2
  if leb 0x80 n
      then (let size = n % 0x80 in
          if size == 0 || ltb 3 size || ltb (length behind) size then ok none else do
            digits ← slice behind 0 size
            body ← slice_from behind size
            der_split tag (der_length 0 digits) body)
      else der_split tag n behind

-- An element takes at least two bytes of `b`.
abbrev pub Within : Bytes → Option Element → Type 0
Within b none = Unit {0}
Within b (some e) = length e.content + length e.rest + 2 ≤ length b

der_split-Within :
    (tag size : ℕ) (b whole : Bytes)
    → length b + 2 ≤ length whole
    → Yields (Within whole) (der_split tag size b)
unfolding der_split
der_split-Within tag size b whole h = elim (Bool-cases (ltb (length b) size)) [
  | inl y ↦ rw y tt
  | inr n ↦
      let fits : size ≤ length b = ground (arith, n) in
      rw (n, slice_ok b 0 size (omega arith) fits, slice_from_ok b size fits)
        (omega
          (arith, length-take (size - 0) (drop 0 b), length-drop size b, length-drop 0 b, h, fits))
]

-- Reading an element of any bytes gives an answer; an element lies in the bytes, and its header takes
-- at least two of them.
pub der_element-Within : (b : Bytes) → Yields (Within b) (der_element b)
unfolding der_element
der_element-Within b =
    let behind = drop 2 b in
    let size = at b 1 % 0x80 in
    ground (
      arith,
      index_ok b 0,
      index_ok b 1,
      slice_from_ok b 2,
      length-drop 2 b,
      slice_ok behind 0 size,
      slice_from_ok behind size,
      length-drop size behind,
      der_split-Within (at b 0) (at b 1) behind b,
      der_split-Within (at b 0) (der_length 0 (take (size - 0) (drop 0 behind))) (drop size behind)
          b,
    )
