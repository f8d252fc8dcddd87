-- ===== src/Pcapng/Options.antt =====
-- internal/pcapng: blocks and options, written and read.
use socktrail.Base.{
  ℕ, suc, ◌+◌, ◌-◌, ◌%◌, ◌^◌, ◌≤◌, ◌<◌, ◌≡◌, ◌≢◌, refl, sym, ap, ◌∙◌, [], ◌∷◌, ◌++◌, append_assoc,
  append-nil, some, Bytes, length, length-append, length-replicate, replicate, arith, ok, ◌>>=◌,
  index, slice, slice_from, le16, le32, put_le16, put_le32, le16-append, le32-append, le16-put_le16,
  le32-put_le32, slice-append, slice_from-append,
}
use socktrail.Pcapng.Writer.{padded, option_bytes, block_bytes}
use socktrail.Pcapng.Reader.{round_up, read_options_loop, read_options, next_block}

pub length-padded : (body : Bytes) → length (padded body) ≡ round_up (length body)
unfolding padded
length-padded body = omega (
  arith,
  length-append body (replicate ((4 - length body % 4) % 4) 0),
  length-replicate {A = ℕ} ((4 - length body % 4) % 4) 0,
)

pub padded-append :
    (body rest : Bytes)
    → padded body ++ rest ≡ body ++ (replicate ((4 - length body % 4) % 4) 0 ++ rest)
unfolding padded
padded-append body rest = append_assoc body (replicate ((4 - length body % 4) % 4) 0) rest

-- A block that was written is the next one read.
pub next_block-block_bytes :
    (kind : ℕ) (body rest : Bytes)
    → kind < 2 ^ 32
    → length body % 4 ≡ 0
    → length body + 12 ≤ 2 ^ 20
    → next_block (block_bytes kind body ++ rest) ≡ ok (some (kind, body, rest))
unfolding next_block block_bytes
next_block-block_bytes kind body rest hk aligned small =
    let size = (length body + 12) % 2 ^ 32 in
    let size_eq : size ≡ length body + 12 = omega arith in
    let front = put_le32 kind ++ put_le32 size in
    let input = front ++ ((body ++ put_le32 size) ++ rest) in
    let shape : input ≡ (front ++ body) ++ (put_le32 size ++ rest) = simp append_assoc in
    let shape' : input ≡ ((front ++ body) ++ put_le32 size) ++ rest = simp append_assoc in
    let long : length input ≡ size + length rest =
      omega
        (arith, length-append (body ++ put_le32 size) rest, length-append body (put_le32 size)) in
    let kind_read : le32 input 0 ≡ ok kind = le32-put_le32 kind _ hk in
    let size_read : le32 input 4 ≡ ok size =
      le32-append (put_le32 kind) _ 4 0 refl ∙ le32-put_le32 size _ (omega arith) in
    let trailer_read : le32 input (size - 4) ≡ ok size =
      ap (λ x. le32 x (size - 4)) shape
      ∙ le32-append (front ++ body) (put_le32 size ++ rest) (size - 4) 0 (omega arith)
      ∙ le32-put_le32 size rest (omega arith) in
    let body_read : slice input 8 (size - 4) ≡ ok body =
      ap (λ x. slice (front ++ x) 8 (size - 4)) (append_assoc body (put_le32 size) rest)
      ∙ slice-append front body (put_le32 size ++ rest) 8 (size - 4) refl (omega arith) in
    let rest_read : slice_from input size ≡ ok rest =
      ap (λ x. slice_from x size) shape'
      ∙ slice_from-append ((front ++ body) ++ put_le32 size) rest size
          (omega (arith, length-append body (put_le32 size))) in
    ground (arith, kind_read, size_read, trailer_read, body_read, rest_read, long)

-- An option that was written is the first one read.
read_options_loop_step :
    (rounds kind : ℕ) (value rest : Bytes)
    → kind < 65536
    → kind ≢ 0
    → length value < 65536
    → read_options_loop (suc rounds) (option_bytes kind value ++ rest)
      ≡ (read_options_loop rounds rest >>= λ others. ok ((kind, value) ∷ others))
unfolding read_options_loop option_bytes
read_options_loop_step rounds kind value rest hk ne hv =
    let zeros : Bytes = replicate ((4 - length value % 4) % 4) 0 in
    let head = put_le16 kind ++ put_le16 (length value) in
    let body = head ++ (padded value ++ rest) in
    let kind_read : le16 body 0 ≡ ok kind = le16-put_le16 kind _ hk in
    let size_read : le16 body 2 ≡ ok (length value) =
      le16-append (put_le16 kind) _ 2 0 refl ∙ le16-put_le16 (length value) _ hv in
    let rest_read : slice_from body 4 ≡ ok (padded value ++ rest) =
      slice_from-append head _ 4 refl in
    let value_read : slice (padded value ++ rest) 0 (length value) ≡ ok value =
      ap (λ x. slice x 0 (length value)) (padded-append value rest)
      ∙ slice-append [] value (zeros ++ rest) 0 (length value) refl (omega arith) in
    let next_read : slice_from (padded value ++ rest) (round_up (length value)) ≡ ok rest =
      slice_from-append (padded value) rest (round_up (length value)) (sym (length-padded value)) in
    let room : length (padded value ++ rest) ≡ round_up (length value) + length rest =
      length-append (padded value) rest ∙ ap (λ n. n + length rest) (length-padded value) in
    ground (arith, kind_read, size_read, rest_read, value_read, next_read, room)

read_options_loop_end :
    (rounds : ℕ) (rest : Bytes) → read_options_loop (suc rounds) (option_bytes 0 [] ++ rest) ≡ ok []
unfolding read_options_loop option_bytes padded slice_from le16 index
read_options_loop_end rounds rest = ground arith

pub read_options_nil : read_options [] ≡ ok []
unfolding read_options read_options_loop
read_options_nil = refl

-- The options of an interface that `New` writes.
pub read_options-interface :
    (name : Bytes)
    → length name < 65536
    → read_options (option_bytes 2 name ++ (option_bytes 9 (6 ∷ []) ++ option_bytes 0 []))
      ≡ ok ((2, name) ∷ (9, 6 ∷ []) ∷ [])
unfolding read_options
read_options-interface name h =
    let last = option_bytes 0 [] in
    let tail = option_bytes 9 (6 ∷ []) ++ last in
    let n = length (option_bytes 2 name ++ tail) in
    let n_eq : n ≡ suc (suc (suc (n - 3))) =
      unfold option_bytes in omega (arith, length-append (padded name) tail) in
    rw n_eq (
      read_options_loop_step (suc (suc (n - 3))) 2 name tail (omega arith) (omega arith) h
      ∙ rw
          (read_options_loop_step (suc (n - 3)) 9 (6 ∷ []) last (omega arith) (omega arith)
            (omega arith))
          (rw
            (ap (read_options_loop (suc (n - 3))) (sym (append-nil last))
              ∙ read_options_loop_end (n - 3) [])
            refl))

-- The options of a packet with a comment.
pub read_options-comment :
    (comment : Bytes)
    → length comment < 65536
    → read_options (option_bytes 1 comment ++ option_bytes 0 []) ≡ ok ((1, comment) ∷ [])
unfolding read_options
read_options-comment comment h =
    let last = option_bytes 0 [] in
    let n = length (option_bytes 1 comment ++ last) in
    let n_eq : n ≡ suc (suc (n - 2)) =
      unfold option_bytes in omega (arith, length-append (padded comment) last) in
    rw n_eq (
      read_options_loop_step (suc (n - 2)) 1 comment last (omega arith) (omega arith) h
      ∙ rw
          (ap (read_options_loop (suc (n - 2))) (sym (append-nil last))
            ∙ read_options_loop_end (n - 2) [])
          refl)
