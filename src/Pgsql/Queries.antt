-- ===== src/Pgsql/Queries.antt =====
-- protos/pgsql/pgsql.go, `pgsqlQueryParser` on the text of several queries.
use packetbeat.Base.{
  ℕ, ◌<◌, ◌++◌, ◌≡◌, refl, ap, ◌∙◌, true, false, List, [], ◌∷◌, map, length, ltb, ◌==◌, arith,
}
use packetbeat.Base.Text.{Bytes, join, split}
use packetbeat.Base.Space.{is_white, trim_space}
use packetbeat.Pgsql.Spaces.{AllBlank, text_of_all, StartsVisible, EndsVisible, trim_space-visible}
use packetbeat.Pgsql.State.{trimmed_queries, query_parser}

-- No byte is the separator.
abbrev pub Without : ℕ → Bytes → Type 0
Without sep [] = Unit
Without sep (c ∷ s) = ((c == sep) ≡ false) × Without sep s

-- A query, and the white space around it.
pub record Piece : Type 0 where
  pub before : List Bytes
  pub query : Bytes
  pub after : List Bytes

abbrev pub text_of : Piece → Bytes
text_of p = text_of_all p.before ++ (p.query ++ text_of_all p.after)

abbrev pub query_of : Piece → Bytes
query_of p = p.query

pub record IsPiece (p : Piece) : Type 0 where
  pub before_is : AllBlank p.before
  pub some_byte : 0 < length p.query
  pub starts : StartsVisible p.query
  pub ends : EndsVisible p.query
  pub one_query : Without b';' p.query
  pub after_is : AllBlank p.after

abbrev pub ArePieces : List Piece → Type 0
ArePieces [] = Unit
ArePieces (p ∷ ps) = IsPiece p × ArePieces ps

trim_space-piece : (p : Piece) → IsPiece p → trim_space (text_of p) ≡ p.query
trim_space-piece p h =
    trim_space-visible p.before p.after p.query h.before_is h.after_is h.some_byte h.starts h.ends

split-Without : (x : Bytes) (sep : ℕ) → Without sep x → split x sep ≡ x ∷ []
unfolding split
split-Without [] sep h = refl
split-Without (c ∷ x) sep h = rw (split, h.0, split-Without x sep h.1) refl

split-append :
    (x s : Bytes) (sep : ℕ)
    → (sep == sep) ≡ true
    → Without sep x
    → split (x ++ sep ∷ s) sep ≡ x ∷ split s sep
unfolding split
split-append [] s sep r h = rw (split, r) refl
split-append (c ∷ x) s sep r h = rw (split, h.0, split-append x s sep r h.1) refl

Without-append : (a b : Bytes) (sep : ℕ) → Without sep a → Without sep b → Without sep (a ++ b)
Without-append [] b sep h k = k
Without-append (c ∷ a) b sep h k = (h.0, Without-append a b sep h.1 k)

-- The separator is not in white space.
blank-Without : (b : Bytes) → is_white b ≡ true → Without b';' b
unfolding is_white
blank-Without [] h = absurd (cc h)
blank-Without (a ∷ []) h = (ground arith, tt)
blank-Without (a ∷ b ∷ []) h = (ground arith, (ground arith, tt))
blank-Without (a ∷ b ∷ c ∷ []) h = (ground arith, (ground arith, (ground arith, tt)))
blank-Without (a ∷ b ∷ c ∷ d ∷ r) h = absurd (cc h)

blanks-Without : (bs : List Bytes) → AllBlank bs → Without b';' (text_of_all bs)
blanks-Without [] h = tt
blanks-Without (b ∷ bs) h =
    Without-append b (text_of_all bs) b';' (blank-Without b h.0) (blanks-Without bs h.1)

text_of-Without : (p : Piece) → IsPiece p → Without b';' (text_of p)
text_of-Without p h =
    Without-append (text_of_all p.before) (p.query ++ text_of_all p.after) b';'
      (blanks-Without p.before h.before_is)
      (Without-append p.query (text_of_all p.after) b';' h.one_query
        (blanks-Without p.after h.after_is))

split-join :
    (p : Piece) (ps : List Piece)
    → ArePieces (p ∷ ps)
    → split (join (map text_of (p ∷ ps)) (b';' ∷ [])) b';' ≡ map text_of (p ∷ ps)
unfolding join
split-join p [] h = split-Without (text_of p) b';' (text_of-Without p h.0)
split-join p (r ∷ ps) h =
    let rest = join (map text_of (r ∷ ps)) (b';' ∷ []) in
    split-append (text_of p) rest b';' refl (text_of-Without p h.0)
    ∙ ap (λ x. text_of p ∷ x) (split-join r ps h.1)

trimmed_queries-pieces :
    (ps : List Piece) → ArePieces ps → trimmed_queries (map text_of ps) ≡ map query_of ps
unfolding trimmed_queries
trimmed_queries-pieces [] h = refl
trimmed_queries-pieces (p ∷ ps) h =
    let some_byte : ltb 0 (length p.query) ≡ true = ground (arith, h.0.some_byte) in
    rw (trimmed_queries, trim_space-piece p h.0, some_byte, trimmed_queries-pieces ps h.1) refl

-- The parser of queries gives back the queries of a text that joins them with semicolons, in their
-- order, without the white space around each, which may be any of Unicode in UTF-8: where there is one
-- query at least, none is empty, none has a semicolon in it, and none begins or ends with white space.
pub query_parser-join :
    (p : Piece) (ps : List Piece)
    → ArePieces (p ∷ ps)
    → query_parser (join (map text_of (p ∷ ps)) (b';' ∷ [])) ≡ map query_of (p ∷ ps)
unfolding query_parser
query_parser-join p ps h =
    ap trimmed_queries (split-join p ps h) ∙ trimmed_queries-pieces (p ∷ ps) h
