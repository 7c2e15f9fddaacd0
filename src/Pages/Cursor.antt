-- ===== src/Pages/Cursor.antt =====
-- Opaque cursors: the text that a client sends back is decoded into the position it was made from.
-- JSON, base64 and the parsing of dates are the platform's, and stand in `Codec`.
use pulse_ledger.Base.{
  ℕ, zero, suc, ◌≡◌, ◌≢◌, refl, ap, ◌∙◌, Option, none, some, List, [], ◌∷◌, ◌++◌, length, ◌<◌, ◌≤◌,
  ◌*◌,
}
use pulse_ledger.Base.Decimal.{Text}
use pulse_ledger.Errors.{Failure, Result, ok, ◌>>=◌, or_throw}
use pulse_ledger.Pages.{Position, fetch_page, follow, walk_pages, order_by_position}
use pulse_ledger.Pages.Ascending.{IsKeyed}
use pulse_ledger.Pages.Complete.{walk_pages_complete, walk_pages_enough}

pub record Codec : Type 0 where
  pub encode : Position → Text
  pub decode : Text → Option Position
  pub decode-encode : (p : Position) → decode (encode p) ≡ some p
  pub encode-nonempty : (p : Position) → encode p ≢ []

-- `options.cursor ? decode(options.cursor) : undefined`
unfoldable pub read_cursor : Codec → Failure → Option Text → Result (Option Position)
read_cursor codec malformed none = ok none
read_cursor codec malformed (some []) = ok none
read_cursor codec malformed (some (c ∷ cs)) = do
  p ← or_throw (codec.decode (c ∷ cs)) malformed
  ok (some p)

abbrev pub write_cursor : Codec → Option Position → Option Text
write_cursor codec none = none
write_cursor codec (some p) = some (codec.encode p)

-- A client that sends each cursor back until none comes, on fuel.
unfoldable pub read_pages {ℓ} :
    {A : Type ℓ} → ℕ → (Option Text → Result (List A × Option Text)) → Option Text → Result (List A)
read_pages zero serve cursor = ok []
read_pages (suc fuel) serve cursor = do
  (page, next) ← serve cursor
  elim next [
    | none ↦ ok page
    | some c ↦ (do rest ← read_pages fuel serve (some c); ok (page ++ rest))
  ]

module _ {ℓ} {A : Type ℓ} (codec : Codec) (malformed : Failure) (position : A → Position) where
  -- One request: the cursor is decoded, a page is fetched, and its cursor is encoded.
  unfoldable pub serve_page : ℕ → Option Text → List A → Result (List A × Option Text)
  serve_page limit cursor rows = do
    after ← read_cursor codec malformed cursor
    let p = fetch_page position limit after rows
    ok (p.0, write_cursor codec p.1)

  read_cursor-encode :
      (p : Position) → read_cursor codec malformed (write_cursor codec (some p)) ≡ ok (some p)
  unfolding read_cursor
  read_cursor-encode p = decoded (codec.encode p) (codec.encode-nonempty p) (codec.decode-encode p)
    where
      decoded :
          (t : Text)
          → t ≢ []
          → codec.decode t ≡ some p
          → read_cursor codec malformed (some t) ≡ ok (some p)
      decoded [] n d = absurd (n refl)
      decoded (c ∷ cs) n d = rw d refl

  serve_page-write :
      (limit : ℕ) (cursor : Option Position) (rows : List A)
      → serve_page limit (write_cursor codec cursor) rows
        ≡ ok (
          (fetch_page position limit cursor rows).0,
          write_cursor codec (fetch_page position limit cursor rows).1,
        )
  unfolding serve_page read_cursor
  serve_page-write limit none rows = refl
  serve_page-write limit (some p) rows = rw (read_cursor-encode p) refl

  read_pages-walk :
      (fuel limit : ℕ) (cursor : Option Position) (rows : List A)
      → read_pages fuel (λ c. serve_page limit c rows) (write_cursor codec cursor)
        ≡ ok (walk_pages position fuel limit cursor rows)
  unfolding read_pages walk_pages
  read_pages-walk zero limit cursor rows = refl
  read_pages-walk (suc fuel) limit cursor rows =
      rw (serve_page-write limit cursor rows) (
        next (λ c. read_pages-walk fuel limit (some c) rows)
          (fetch_page position limit cursor rows))
    where
      next :
          ((c : Position)
            → read_pages fuel (λ d. serve_page limit d rows) (write_cursor codec (some c))
              ≡ ok (walk_pages position fuel limit (some c) rows))
          → (q : List A × Option Position)
          → (elim (write_cursor codec q.1) [
            | none ↦ ok q.0
            | some c ↦
                (read_pages fuel (λ d. serve_page limit d rows) (some c) >>= λ rest.
                ok (q.0 ++ rest))
          ])
            ≡ ok (follow position q (λ c. walk_pages position fuel limit (some c) rows))
      next later (page, none) = refl
      next later (page, some c) = rw (later c) refl

  -- With as many requests as there are full pages, a client reads every row exactly once.
  pub read_pages_enough :
      (fuel limit : ℕ) (rows : List A)
      → 0 < limit
      → 0 < fuel
      → length rows ≤ fuel * limit
      → IsKeyed position rows
      → read_pages fuel (λ c. serve_page limit c rows) none ≡ ok (order_by_position position rows)
  read_pages_enough fuel limit rows p q f keyed =
      read_pages-walk fuel limit none rows
      ∙ ap ok (walk_pages_enough position fuel limit rows p q f keyed)

  -- A client that starts without a cursor and sends back the cursors it is given meets no error,
  -- and reads every row exactly once, in the order of the positions.
  pub read_pages_complete :
      (limit : ℕ) (rows : List A)
      → 0 < limit
      → IsKeyed position rows
      → read_pages (suc (length rows)) (λ c. serve_page limit c rows) none
        ≡ ok (order_by_position position rows)
  read_pages_complete limit rows p keyed =
      read_pages-walk (suc (length rows)) limit none rows
      ∙ ap ok (walk_pages_complete position limit rows p keyed)
