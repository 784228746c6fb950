-- ===== src/Redis/Lines.antt =====
-- protos/redis/redis.go, `readLine` and one round of `redisMessageParser`: how far they read, and
-- that they answer the same when more bytes follow.
use packetbeat.Base.{
  ℕ, ◌+◌, ◌≤◌, ◌++◌, ◌≡◌, ◌≢◌, inl, inr, sym, ap, ◌∙◌, Bool, true, false, Option, none, some,
  length, get_elem?, get_elem?-append_left, drop, length-drop, drop-append_le, take-append_le,
  arith, Option-cases, Bool-cases,
}
use packetbeat.Base.Int.{ℤ, pos, negsuc}
use packetbeat.Base.Text.{Bytes, parse_int}
use packetbeat.Base.Find.{index, index-le, index-append}
use packetbeat.Redis.{
  crlf, is_null, read_line, Scan, wait, fail, bulk_count, value, scan_multi_bulk, scan_bulk_bytes,
  scan_bulk, scan_integer, scan_text, scan_kind, scan,
}

-- A line ends inside the text, two bytes at least behind its start.
pub read_line_bounds :
    (bytes : Bytes) (offset : ℕ) (line : Bytes) (off : ℕ)
    → offset ≤ length bytes
    → read_line bytes offset ≡ some (line, off)
    → (offset + 2 ≤ off) × (off ≤ length bytes)
unfolding read_line
read_line_bounds bytes offset line off h e = elim (Option-cases (index crlf (drop offset bytes))) [
  | inl n ↦ absurd (ground arith)
  | inr (q, f) ↦ ground (arith, index-le crlf (drop offset bytes) q f, length-drop offset bytes)
]

-- A line that is found is found again when more bytes follow.
pub read_line-append :
    (bytes more : Bytes) (offset : ℕ) (line : Bytes) (off : ℕ)
    → offset ≤ length bytes
    → read_line bytes offset ≡ some (line, off)
    → read_line (bytes ++ more) offset ≡ some (line, off)
unfolding read_line
read_line-append bytes more offset line off h e =
    elim (Option-cases (index crlf (drop offset bytes))) [
      | inl n ↦ absurd (ground arith)
      | inr (q, f) ↦ ground (
        arith,
        drop-append_le offset bytes more h,
        index-append crlf (drop offset bytes) more q f,
        take-append_le q (drop offset bytes) more,
        index-le crlf (drop offset bytes) q f,
      )
    ]

-- How far a round reads.
abbrev pub Reads : ℕ → ℕ → Scan → Type 0
Reads lo hi wait = Unit
Reads lo hi fail = Unit
Reads lo hi (bulk_count n off) = (lo + 2 ≤ off) × (off ≤ hi)
Reads lo hi (value v off err) = (lo + 2 ≤ off) × (off ≤ hi)

-- A round that does not wait.
abbrev pub IsDecided : Scan → Type 0
IsDecided wait = ⊥
IsDecided _ = Unit

module _ (bytes : Bytes) (offset : ℕ) (h : offset ≤ length bytes) where
  scan_multi_bulk-Reads : Reads offset (length bytes) (scan_multi_bulk (read_line bytes offset))
  unfolding scan_multi_bulk
  scan_multi_bulk-Reads = elim (Option-cases (read_line bytes offset)) [
    | inl e ↦ rw e tt
    | inr ((line, off), e) ↦ rw e (ground (arith, read_line_bounds bytes offset line off h e))
  ]

  scan_integer-Reads : Reads offset (length bytes) (scan_integer (read_line bytes offset))
  unfolding scan_integer
  scan_integer-Reads = elim (Option-cases (read_line bytes offset)) [
    | inl e ↦ rw e tt
    | inr ((line, off), e) ↦ rw e (ground (arith, read_line_bounds bytes offset line off h e))
  ]

  scan_text-Reads :
      (err : Bool) → Reads offset (length bytes) (scan_text err (read_line bytes offset))
  unfolding scan_text
  scan_text-Reads err = elim (Option-cases (read_line bytes offset)) [
    | inl e ↦ rw e tt
    | inr ((line, off), e) ↦ rw e (ground (arith, read_line_bounds bytes offset line off h e))
  ]

  scan_bulk_bytes-Reads :
      (n : ℤ) → Reads offset (length bytes) (scan_bulk_bytes n (read_line bytes offset))
  unfolding scan_bulk_bytes
  scan_bulk_bytes-Reads n = elim (Option-cases (read_line bytes offset)) [
    | inl e ↦ rw e tt
    | inr ((line, off), e) ↦ rw e (go n line off (read_line_bounds bytes offset line off h e))
  ]
    where
      go :
          (n : ℤ) (line : Bytes) (off : ℕ)
          → (offset + 2 ≤ off) × (off ≤ length bytes)
          → Reads offset (length bytes) (scan_bulk_bytes n (some (line, off)))
      go (pos n) line off b = ground arith
      go (negsuc n) line off b = tt

Reads-mono : (a b hi : ℕ) (r : Scan) → a ≤ b → Reads b hi r → Reads a hi r
Reads-mono a b hi wait h k = tt
Reads-mono a b hi fail h k = tt
Reads-mono a b hi (bulk_count n off) h k = omega arith
Reads-mono a b hi (value v off err) h k = omega arith

scan_bulk-Reads :
    (bytes : Bytes) (offset : ℕ)
    → offset ≤ length bytes
    → Reads offset (length bytes) (scan_bulk bytes (read_line bytes offset))
unfolding scan_bulk
scan_bulk-Reads bytes offset h = elim (Option-cases (read_line bytes offset)) [
  | inl e ↦ rw e tt
  | inr ((line, off), e) ↦ rw e (go line off (read_line_bounds bytes offset line off h e))
]
  where
    go :
        (line : Bytes) (off : ℕ)
        → (offset + 2 ≤ off) × (off ≤ length bytes)
        → Reads offset (length bytes) (scan_bulk bytes (some (line, off)))
    go line off b = elim (Bool-cases (is_null line)) [
      | inl t ↦ rw t b
      | inr f ↦ rw f (elim (Option-cases (parse_int (drop 1 line))) [
        | inl e ↦ rw (e, scan_bulk) tt
        | inr (n, e) ↦
            rw (e, scan_bulk)
              (Reads-mono offset off (length bytes) _ (omega arith)
                (scan_bulk_bytes-Reads bytes off b.1 n))
      ])
    ]

scan_kind-Reads :
    (c : ℕ) (bytes : Bytes) (offset : ℕ)
    → offset ≤ length bytes
    → Reads offset (length bytes) (scan_kind c bytes offset)
unfolding scan_kind
scan_kind-Reads c bytes offset h = ground (
  arith,
  scan_multi_bulk-Reads bytes offset h,
  scan_bulk-Reads bytes offset h,
  scan_integer-Reads bytes offset h,
  scan_text-Reads bytes offset h false,
  scan_text-Reads bytes offset h true,
)

-- A round that reads something reads two bytes at least, and none behind the end.
pub scan-Reads :
    (bytes : Bytes) (offset : ℕ)
    → offset ≤ length bytes
    → Reads offset (length bytes) (scan bytes offset)
unfolding scan
scan-Reads bytes offset h = elim (Option-cases (get_elem? bytes offset)) [
  | inl e ↦ rw (e, scan) tt
  | inr (c, e) ↦ rw (e, scan) (scan_kind-Reads c bytes offset h)
]

-- The same round with more bytes behind the text.
module _ (bytes more : Bytes) (offset : ℕ) (h : offset ≤ length bytes) where
  read_line_again :
      read_line bytes offset ≢ none → read_line (bytes ++ more) offset ≡ read_line bytes offset
  read_line_again ne = elim (Option-cases (read_line bytes offset)) [
    | inl e ↦ absurd (ne e)
    | inr ((line, off), e) ↦ read_line-append bytes more offset line off h e ∙ sym e
  ]

IsDecided-multi_bulk : (l : Option (Bytes × ℕ)) → IsDecided (scan_multi_bulk l) → l ≢ none
unfolding scan_multi_bulk
IsDecided-multi_bulk none d = elim d [ ]
IsDecided-multi_bulk (some l) d = λ e. cc

IsDecided-integer : (l : Option (Bytes × ℕ)) → IsDecided (scan_integer l) → l ≢ none
unfolding scan_integer
IsDecided-integer none d = elim d [ ]
IsDecided-integer (some l) d = λ e. cc

IsDecided-text : (err : Bool) (l : Option (Bytes × ℕ)) → IsDecided (scan_text err l) → l ≢ none
unfolding scan_text
IsDecided-text err none d = elim d [ ]
IsDecided-text err (some l) d = λ e. cc

IsDecided-bulk : (bytes : Bytes) (l : Option (Bytes × ℕ)) → IsDecided (scan_bulk bytes l) → l ≢ none
unfolding scan_bulk
IsDecided-bulk bytes none d = elim d [ ]
IsDecided-bulk bytes (some l) d = λ e. cc

IsDecided-bulk_bytes : (n : ℤ) (l : Option (Bytes × ℕ)) → IsDecided (scan_bulk_bytes n l) → l ≢ none
unfolding scan_bulk_bytes
IsDecided-bulk_bytes n none d = elim d [ ]
IsDecided-bulk_bytes n (some l) d = λ e. cc

scan_bulk-append :
    (bytes more : Bytes) (line : Bytes) (off : ℕ)
    → off ≤ length bytes
    → IsDecided (scan_bulk bytes (some (line, off)))
    → scan_bulk (bytes ++ more) (some (line, off)) ≡ scan_bulk bytes (some (line, off))
unfolding scan_bulk
scan_bulk-append bytes more line off h d = elim (Bool-cases (is_null line)) [
  | inl t ↦ rw t
  | inr f ↦ elim (Option-cases (parse_int (drop 1 line))) [
    | inl e ↦ rw f (rw (e, scan_bulk))
    | inr (n, e) ↦ rw f (
        rw (e, scan_bulk)
          (ap (scan_bulk_bytes n) (
            read_line_again bytes more off h
              (IsDecided-bulk_bytes n (read_line bytes off) (rw (f, e, scan_bulk) at d)))))
  ]
]

module _ (bytes more : Bytes) (offset : ℕ) (h : offset ≤ length bytes) where
  multi_bulk_again :
      IsDecided (scan_multi_bulk (read_line bytes offset))
      → scan_multi_bulk (read_line (bytes ++ more) offset)
        ≡ scan_multi_bulk (read_line bytes offset)
  multi_bulk_again d =
      ap scan_multi_bulk (read_line_again bytes more offset h (IsDecided-multi_bulk _ d))

  integer_again :
      IsDecided (scan_integer (read_line bytes offset))
      → scan_integer (read_line (bytes ++ more) offset) ≡ scan_integer (read_line bytes offset)
  integer_again d = ap scan_integer (read_line_again bytes more offset h (IsDecided-integer _ d))

  text_again :
      (err : Bool)
      → IsDecided (scan_text err (read_line bytes offset))
      → scan_text err (read_line (bytes ++ more) offset) ≡ scan_text err (read_line bytes offset)
  text_again err d =
      ap (scan_text err) (read_line_again bytes more offset h (IsDecided-text err _ d))

  bulk_again :
      IsDecided (scan_bulk bytes (read_line bytes offset))
      → scan_bulk (bytes ++ more) (read_line (bytes ++ more) offset)
        ≡ scan_bulk bytes (read_line bytes offset)
  bulk_again d = elim (Option-cases (read_line bytes offset)) [
    | inl e ↦ absurd (IsDecided-bulk bytes _ d e)
    | inr ((line, off), e) ↦
        rw (read_line-append bytes more offset line off h e, e)
          (scan_bulk-append bytes more line off (read_line_bounds bytes offset line off h e).1
            (rw e at d))
  ]

  kind_again :
      (c : ℕ)
      → IsDecided (scan_kind c bytes offset)
      → scan_kind c (bytes ++ more) offset ≡ scan_kind c bytes offset
  unfolding scan_kind
  kind_again c d =
      ground (arith, multi_bulk_again, bulk_again, integer_again, text_again false, text_again true)

  -- A round that does not wait for more bytes is the same when more bytes follow.
  pub scan-append : IsDecided (scan bytes offset) → scan (bytes ++ more) offset ≡ scan bytes offset
  unfolding scan
  scan-append d = elim (Option-cases (get_elem? bytes offset)) [
    | inl e ↦ absurd (rw (e, scan) at d)
    | inr (c, e) ↦
        rw (get_elem?-append_left bytes more offset e, e, scan) (kind_again c (rw (e, scan) at d))
  ]
