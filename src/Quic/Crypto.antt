-- ===== src/Quic/Crypto.antt =====
-- internal/quicinitial/initial.go, addCrypto, pullParts and clientHello. Go's map is an association
-- list; the order in which `pullParts` visits it is a parameter. Sizes stay below 2 ^ 62, so that no
-- uint64 wraps.
use socktrail.Base.{
  ℕ, zero, suc, ◌+◌, ◌-◌, ◌*◌, min, max, Bool, true, false, not, ◌||◌, List, [], ◌∷◌, ◌++◌, Option,
  none, some, Bytes, length, ltb, leb, ◌==◌, if◌then◌else◌, Res, ok, err, panic, ◌>>=◌, index,
  slice, slice_from, be24, equal,
}
use mathlib.Core.List.{Permᴰ}

abbrev pub max_crypto_bytes : ℕ
max_crypto_bytes = 64 * 1024 + 4

abbrev pub max_crypto_parts : ℕ
max_crypto_parts = 64

-- An entry of the map `parts`.
pub record Part : Type 0 where
  pub start : ℕ
  pub content : Bytes

-- The fields of `Tracker` that hold the CRYPTO stream.
pub record CryptoStream : Type 0 where
  pub crypto : Bytes
  pub parts : List Part
  pub pending_size : ℕ

abbrev pub empty_stream : CryptoStream
empty_stream = record { crypto = []; parts = []; pending_size = 0 }

unfoldable pub find_part : ℕ → List Part → Option Bytes
find_part start [] = none
find_part start (p ∷ ps) = if p.start == start then some p.content else find_part start ps

-- `parts[start] = data`
unfoldable pub put_part : ℕ → Bytes → List Part → List Part
put_part start content [] = record { start = start; content = content } ∷ []
put_part start content (p ∷ ps) =
    let rest = put_part start content ps in
    if p.start == start then record { start = start; content = content } ∷ ps else p ∷ rest

-- The loop over `parts` that looks for a conflict.
unfoldable pub check_overlaps : ℕ → ℕ → Bytes → List Part → Res (Unit {0})
check_overlaps start end content [] = ok tt
check_overlaps start end content (p ∷ ps) =
    let shared_start = max start p.start in
    let shared_end = min end (p.start + length p.content) in
    if ltb shared_start shared_end
    then (do
      new ← slice content (shared_start - start) (shared_end - start)
      old ← slice p.content (shared_start - p.start) (shared_end - p.start)
      if not (equal new old)
          then err "conflicting QUIC CRYPTO overlap"
          else check_overlaps start end content ps)
    else check_overlaps start end content ps

unfoldable pub store_part : ℕ → Bytes → CryptoStream → Res CryptoStream
store_part start content t =
    if ltb max_crypto_bytes (t.pending_size + length content)
    then err "QUIC CRYPTO buffer limit"
    else ok (record t {
      parts = put_part start content t.parts;
      pending_size = t.pending_size + length content;
    })

-- The bytes wait, in place of a shorter part with the same start.
unfoldable pub hold_part : ℕ → Bytes → Option Bytes → CryptoStream → Res CryptoStream
unfolding store_part
hold_part start content none t =
    if leb max_crypto_parts (length t.parts)
    then err "QUIC CRYPTO fragment limit"
    else store_part start content t
hold_part start content (some prior) t =
    let overlap = min (length prior) (length content) in
    do
      old ← slice prior 0 overlap
      new ← slice content 0 overlap
      if not (equal old new)
          then err "conflicting QUIC CRYPTO fragment"
          else if leb (length content) (length prior)
          then ok t
          else store_part start content (record t { pending_size = t.pending_size - length prior })

-- One pass of `pullParts` over the entries; `t.parts` collects those that stay.
unfoldable pub pull_pass : List Part → CryptoStream → Bool → Res (CryptoStream × Bool)
pull_pass [] t progress = ok (t, progress)
pull_pass (p ∷ ps) t progress =
    let used = length t.crypto - p.start in
    if ltb (length t.crypto) p.start
    then pull_pass ps (record t { parts = t.parts ++ (p ∷ []) }) progress
    else if ltb used (length p.content)
    then (do
      rest ← slice_from p.content used
      pull_pass ps
          (record t { crypto = t.crypto ++ rest; pending_size = t.pending_size - length p.content })
          true)
    else pull_pass ps (record t { pending_size = t.pending_size - length p.content }) progress

-- The order in which `range` visits the map: some permutation of its entries.
pub record PartOrder : Type 0 where
  pub arrange : List Part → List Part
  pub arrange_perm : (ps : List Part) → Permᴰ (arrange ps) ps

module _ (R : PartOrder) where
  open R use {arrange}

  -- `pullParts`. A pass that makes progress takes a part away; running out of rounds is a panic here.
  unfoldable pub pull_loop : ℕ → CryptoStream → Res CryptoStream
  unfolding pull_pass
  pull_loop zero t = panic
  pull_loop (suc rounds) t = do
    (t', progress) ← pull_pass (arrange t.parts) (record t { parts = [] }) false
    elim progress [ true ↦ pull_loop rounds t' | false ↦ ok t' ]

  unfoldable pub pull_parts : CryptoStream → Res CryptoStream
  unfolding pull_loop
  pull_parts t = pull_loop (suc (length t.parts)) t

  -- `addCrypto` without the bytes that are there already.
  unfoldable pub add_rest : ℕ → ℕ → Bytes → CryptoStream → Res CryptoStream
  unfolding pull_parts hold_part check_overlaps
  add_rest start end content t =
      if length content == 0
      then ok t
      else if start == length t.crypto
      then pull_parts (record t { crypto = t.crypto ++ content })
      else do
        checked ← check_overlaps start end content t.parts
        hold_part start content (find_part start t.parts) t

  -- `addCrypto`
  unfoldable pub add_crypto : ℕ → Bytes → CryptoStream → Res CryptoStream
  unfolding add_rest
  add_crypto start content t =
      let end = start + length content in
      let overlap = min end (length t.crypto) - start in
      if ltb max_crypto_bytes start || ltb (max_crypto_bytes - start) (length content)
      then err "QUIC ClientHello size limit"
      else if ltb start (length t.crypto)
      then (do
        old ← slice t.crypto start (start + overlap)
        new ← slice content 0 overlap
        if not (equal old new)
            then err "conflicting QUIC CRYPTO retransmission"
            else do rest ← slice_from content overlap; add_rest (start + overlap) end rest t)
      else add_rest start end content t

-- `clientHello`; `none` where the message is not complete.
unfoldable pub client_hello : CryptoStream → Res (Option Bytes)
client_hello t = if ltb (length t.crypto) 4 then ok none else do
  kind ← index t.crypto 0
  size ← be24 t.crypto 1
  if not (kind == 1)
      then err "first QUIC handshake is not ClientHello"
      else if ltb (max_crypto_bytes - 4) size
      then err "QUIC ClientHello size limit"
      else if ltb (length t.crypto) (size + 4)
      then ok none
      else do message ← slice t.crypto 0 (size + 4); ok (some message)
