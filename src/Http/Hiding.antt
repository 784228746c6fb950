-- ===== src/Http/Hiding.antt =====
-- protos/http/http.go: `hideHeaders`, which writes over the bytes of the message.
use packetbeat.Base.{
  ℕ, zero, suc, ◌+◌, ◌-◌, ◌≤◌, ◌++◌, ◌≡◌, refl, sym, ap, ◌∙◌, inl, inr, Bool, true, false, ◌&&◌, [],
  ◌∷◌, Option, none, some, length, take, drop, ltb, leb, ◌==◌, if◌then◌else◌, length-append,
  append_assoc, take-append_length, drop-append_length, drop-append_le, drop-drop, arith,
  Bool-cases,
}
use packetbeat.Base.Find.{index}
use packetbeat.Base.GoMap.{lookup, put, bytes_instance}
use packetbeat.Base.Text.{Bytes, codes}
use packetbeat.Base.Slice.{slice?-middle, Buffer, slice?}
use packetbeat.Http.Message.{HttpMessage, crlf}

abbrev pub auth_text : Bytes
auth_text = codes "Authorization:"

abbrev pub asterisks : ℕ → Bytes
asterisks zero = []
asterisks (suc n) = b'*' ∷ asterisks n

-- The loop that writes asterisks, with a panic where it leaves the bytes.
unfoldable pub star_out : ℕ → ℕ → Bytes → Option Bytes
star_out from to bytes =
    if ltb from to
    then (if leb to (length bytes)
        then some (take from bytes ++ (asterisks (to - from) ++ drop to bytes))
        else none)
    else some bytes

-- `val_end_x`, from the place where the line ends.
unfoldable pub value_end : ℕ → Option ℕ → ℕ
value_end header_len none = header_len
value_end header_len (some e) = if ltb header_len e then header_len else e

-- The bytes with the value hidden; `headers` is `msg[m.headerOffset:m.bodyOffset]`.
unfoldable pub hide_value : ℕ → Bytes → Bytes → Option Bytes
hide_value header_offset headers bytes = elim (index auth_text headers) [
  | none ↦ some bytes
  | some x ↦
      star_out (header_offset + x + length auth_text)
        (header_offset + value_end (length headers) (index crlf (drop x headers))) bytes
]

unfoldable pub has_authorization : Option Bytes → Bool
has_authorization none = false
has_authorization (some v) = ltb 0 (length v)

-- `hideHeaders`, with `Strip_authorization`; `none` is a panic.
unfoldable pub hide_headers : Bool → HttpMessage → Buffer → Option (HttpMessage × Bytes)
hide_headers strip m msg =
    if m.is_request && (strip && has_authorization (lookup (codes "authorization") m.headers))
    then elim (slice? msg m.header_offset m.body_offset) [
      | none ↦ none
      | some headers ↦ elim (hide_value m.header_offset headers msg.bytes) [
        | none ↦ none
        | some bytes ↦
            some (record m { headers = put (codes "authorization") (codes "*") m.headers }, bytes)
      ]
    ]
    else some (m, msg.bytes)

abbrev pub WithoutCr : Bytes → Type 0
WithoutCr [] = Unit
WithoutCr (c ∷ s) = ((c == 13) ≡ false) × WithoutCr s

-- The first line break is behind a text that has none.
index-line : (s rest : Bytes) → WithoutCr s → index crlf (s ++ (crlf ++ rest)) ≡ some (length s)
unfolding index
index-line [] rest h = refl
index-line (c ∷ s) rest h =
    let other : (13 == c) ≡ false = ground (arith, h.0) in rw (other, index-line s rest h.1) refl

-- The first bytes of a value are written over.
abbrev pub hidden : ℕ → Bytes → Bytes
hidden n v = asterisks n ++ drop n v

star_out-middle :
    (a v c : Bytes) (to : ℕ)
    → to ≤ length a + length v
    → star_out (length a) to (a ++ (v ++ c)) ≡ some (a ++ (hidden (to - length a) v ++ c))
unfolding star_out
star_out-middle a v c to h = elim (Bool-cases (ltb (length a) to)) [
  | inl t ↦
      let n = to - length a in
      let inside : leb to (length (a ++ (v ++ c))) ≡ true =
        ground (arith, length-append a (v ++ c), length-append v c) in
      let kept : drop to (a ++ (v ++ c)) ≡ drop n v ++ c =
        sym (drop-drop to n (length a) (a ++ (v ++ c)) (ground (arith, t)))
        ∙ ap (drop n) (drop-append_length a (v ++ c))
        ∙ drop-append_le n v c (ground arith) in
      rw (star_out, t, inside, kept, take-append_length a (v ++ c))
        (ap (λ x. some (a ++ x)) (sym (append_assoc (asterisks n) (drop n v) c)))
  | inr f ↦
      let none_hidden : to - length a ≡ 0 = ground (arith, f) in rw (star_out, f, none_hidden) refl
]

-- A block of headers, with the value of one of them.
abbrev pub block_with : Bytes → Bytes → Bytes → Bytes
block_with before value others = before ++ (auth_text ++ (value ++ (crlf ++ others)))

append_block :
    (line before value others body : Bytes)
    → line ++ (block_with before value others ++ body)
      ≡ (line ++ (before ++ auth_text)) ++ (value ++ ((crlf ++ others) ++ body))
append_block line before value others body = simp append_assoc refl

hide_value_hides :
    (line before value others body : Bytes)
    → index auth_text (block_with before value others) ≡ some (length before)
    → WithoutCr value
    → hide_value
        (length line)
        (block_with before value others)
        (line ++ (block_with before value others ++ body))
      ≡ some
          (line ++ (block_with before (hidden (length value - length before) value) others ++ body))
unfolding hide_value
hide_value_hides line before value others body first w =
    let block = block_with before value others in
    let named = auth_text ++ value in
    let n = length value - length before in
    let before_value = line ++ (before ++ auth_text) in
    let on : drop (length before) block ≡ named ++ (crlf ++ others) =
      drop-append_length before (named ++ (crlf ++ others)) in
    let ends : index crlf (named ++ (crlf ++ others)) ≡ some (length named) =
      index-line named others (
        refl,
        (
          refl,
          (
            refl,
            (
              refl,
              (refl, (refl, (refl, (refl, (refl, (refl, (refl, (refl, (refl, (refl, w)))))))))),
            ),
          ),
        ),
      ) in
    let inside : value_end (length block) (some (length named)) ≡ length named =
      unfold value_end in
      ground (
        arith,
        length-append before (named ++ (crlf ++ others)),
        length-append named (crlf ++ others),
      ) in
    let from : length line + length before + 14 ≡ length before_value =
      omega (arith, length-append line (before ++ auth_text), length-append before auth_text) in
    let to : length line + length named ≤ length before_value + length value =
      omega (arith, from, length-append auth_text value) in
    let size : length line + length named - length before_value ≡ n =
      omega (arith, from, length-append auth_text value) in
    rw (hide_value, first, on, ends, inside, from, append_block line before value others body)
      (star_out-middle before_value value ((crlf ++ others) ++ body) (length line + length named) to
        ∙ ap (λ k. some (before_value ++ (hidden k value ++ ((crlf ++ others) ++ body)))) size
        ∙ ap some (sym (append_block line before (hidden n value) others body)))

-- On a request with credentials whose first "Authorization:" is a whole header, with any headers
-- before and behind it, `Strip_authorization` replaces the stored header by an asterisk, and in
-- the bytes of the message it hides as many bytes from the start of the value as the value is
-- longer than the headers before it: all of the value where the header is the first, and none
-- where the headers before it are as long as the value. All other bytes stay.
pub hide_headers_hides :
    (m : HttpMessage) (line before value others body spare : Bytes)
    → m.is_request ≡ true
    → has_authorization (lookup (codes "authorization") m.headers) ≡ true
    → m.header_offset ≡ length line
    → m.body_offset ≡ length line + length (block_with before value others)
    → index auth_text (block_with before value others) ≡ some (length before)
    → WithoutCr value
    → hide_headers true m
        (record { bytes = line ++ (block_with before value others ++ body); spare = spare })
      ≡ some (
        record m { headers = put (codes "authorization") (codes "*") m.headers },
        line ++ (block_with before (hidden (length value - length before) value) others ++ body),
      )
unfolding hide_headers
hide_headers_hides m line before value others body spare q a h b first w =
    let bytes = line ++ (block_with before value others ++ body) in
    let block : slice? (record { bytes = bytes; spare = spare }) m.header_offset m.body_offset
        ≡ some (block_with before value others) =
      rw (h, b) (slice?-middle line (block_with before value others) body spare) in
    let starred : hide_value m.header_offset (block_with before value others) bytes
        ≡ some (
            line
            ++ (block_with before (hidden (length value - length before) value) others ++ body)) =
      rw h (hide_value_hides line before value others body first w) in
    simp (q, a, block, starred)
