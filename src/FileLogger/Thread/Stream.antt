-- ===== src/FileLogger/Thread/Stream.antt =====
-- What was written to the log files, those that `deleteOldest` has removed since included, in terms of the
-- entries that `addLogEntry` took.
use pnet2csv.Common.{
  ℕ, ◌<◌, ◌≡◌, refl, sym, ap, ◌∙◌, List, [], ◌∷◌, ◌++◌, map, append_assoc, append-nil, Bool, true,
  Option, none, some, length, All,
}
use pnet2csv.FileLogger.Entry.{Dtl, IsDtl, var64_size}
use pnet2csv.FileLogger.Entry.Codec.{encode}
use pnet2csv.FileLogger.Buffer.Queue.{IsValid, contents}
use pnet2csv.FileLogger.File.{log_header, StartAnswers, file_buffer_size}
use pnet2csv.FileLogger.File.Header.{IsWhole}
use pnet2csv.FileLogger.Thread.{System, Event, add, drain, flush}

-- Entries in a file: each stands behind a 0.
unfoldable pub body : List (List ℕ) → List ℕ
body [] = []
body (e ∷ es) = (0 ∷ e) ++ body es

-- A finished file: header, entries, end mark.
unfoldable pub whole : List (List ℕ) → List ℕ
unfolding body
whole es = log_header true ++ (body es ++ 255 ∷ [])

unfoldable pub concat : List (List (List ℕ)) → List (List ℕ)
concat [] = []
concat (g ∷ gs) = g ++ concat gs

pub body-append : (xs ys : List (List ℕ)) → body (xs ++ ys) ≡ body xs ++ body ys
unfolding body
body-append [] ys = refl
body-append (x ∷ xs) ys =
    ap (◌++◌ (0 ∷ x)) (body-append xs ys) ∙ sym (append_assoc (0 ∷ x) (body xs) (body ys))

pub body_snoc : (xs : List (List ℕ)) (x : List ℕ) → body (xs ++ x ∷ []) ≡ body xs ++ (0 ∷ x)
unfolding body
body_snoc xs x = body-append xs (x ∷ []) ∙ ap (◌++◌ (body xs)) (append-nil (0 ∷ x))

pub concat_snoc :
    (gs : List (List (List ℕ))) (g : List (List ℕ)) → concat (gs ++ g ∷ []) ≡ concat gs ++ g
unfolding concat
concat_snoc [] g = append-nil g
concat_snoc (h ∷ gs) g = ap (◌++◌ h) (concat_snoc gs g) ∙ sym (append_assoc h (concat gs) g)

pub map_snoc {ℓ κ} :
    {A : Type ℓ} {B : Type κ} (f : A → B) (xs : List A) (x : A)
    → map f (xs ++ x ∷ []) ≡ map f xs ++ f x ∷ []
map_snoc f [] x = refl
map_snoc f (y ∷ xs) x = ap (◌∷◌ (f y)) (map_snoc f xs x)

-- Between the file and its buffer lie the header and the entries of the current group.
abbrev pub IsOpen : Option ℕ → List ℕ → List (List ℕ) → Type 0
IsOpen none bytes current = current ≡ []
IsOpen (some fd) bytes current = bytes ≡ log_header true ++ body current

abbrev pub encode_all : Bool → List (Dtl × List ℕ) → List (List ℕ)
encode_all big = map (λ c. encode big c.0 c.1)

-- Every accepted entry stands, in order and once, in a file that was finished, in the current file and its
-- buffer, or in the entry buffer.
pub record IsSound (big : Bool) (s : System) : Type 0 where
  pub groups : List (List (List ℕ))
  pub current : List (List ℕ)
  pub order : s.logger.bigendian ≡ big
  pub valid : IsValid s.logger.entries
  pub room : length s.thread.log.buffer < file_buffer_size
  pub closed_files : s.thread.closed ≡ map whole groups
  pub open_file : IsOpen s.thread.log.fd (s.thread.file ++ s.thread.log.buffer) current
  pub complete : concat groups ++ (current ++ contents s.logger.entries) ≡ encode_all big s.accepted

abbrev pub HeadersWhole : List StartAnswers → Type 0
HeadersWhole = All (λ a. IsWhole a.header_write)

-- The calls that the theorem is about: entries of the C types with all 128 bytes, and headers that
-- are written whole or not at all.
abbrev pub IsRegular : Event → Type 0
IsRegular (add created t words) = IsDtl t × (length words ≡ var64_size)
IsRegular (drain a stale) = HeadersWhole a.starts
IsRegular (flush answers) = Unit {0}
