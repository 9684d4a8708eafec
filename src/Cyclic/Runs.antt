-- ===== src/Cyclic/Runs.antt =====
-- Histories of samples: what is put together of two, and what the entries of one are.
use pnet2csv.Common.{
  ◌≡◌, refl, sym, ap, ◌∙◌, inl, inr, List, [], ◌∷◌, ◌++◌, arith, length, All, Bool-cases,
  append-nil, append_assoc, ◌==◌,
}
use pnet2csv.FileLogger.Entry.{IsDtl, var64_size}
use pnet2csv.Cyclic.{Cyclic, Sample, data_changed, handle_sample, handle_cyclic_data, run}

-- A timestamp and 128 bytes.
pub record IsFull (s : Sample) : Type 0 where
  pub fresh : IsDtl s.0
  pub full : length s.1 ≡ var64_size

-- A history of samples in two parts.
pub run-append :
    (c : Cyclic) (xs ys : List Sample)
    → let (c', calls) = run c xs in
      let (c'', more) = run c' ys in run c (xs ++ ys) ≡ (c'', calls ++ more)
unfolding run
run-append c [] ys = refl
run-append c (x ∷ xs) ys =
    let calls = (handle_cyclic_data c x.0 x.1).1 in
    let c1 = (handle_cyclic_data c x.0 x.1).0 in
    let first = run c1 xs in
    let rest = run first.0 ys in
    ap (λ r. (r.0, calls ++ r.1)) (run-append c1 xs ys)
    ∙ ap (λ l. (rest.0, l)) (sym (append_assoc calls first.1 rest.1))

pub All-append {ℓ} :
    {A : Type ℓ} → (P : A → Type 0) → (xs ys : List A) → All P xs → All P ys → All P (xs ++ ys)
All-append P [] ys h k = k
All-append P (x ∷ xs) ys (h, hs) k = (h, All-append P xs ys hs k)

-- The samples that a read leads to.
pub handle_sample-IsFull :
    (c : Cyclic) (s : Sample)
    → IsFull s
    → IsFull (c.last_ts, c.last_data)
    → All IsFull (handle_sample c s.0 s.1).1
      × IsFull ((handle_sample c s.0 s.1).0.last_ts, (handle_sample c s.0 s.1).0.last_data)
unfolding handle_sample
handle_sample-IsFull c s f l = elim (Bool-cases (s.0.year == 0)) [
  | inl y ↦ rw y (tt, l)
  | inr y ↦ elim (Bool-cases (s.0.nanosecond == c.last_ts.nanosecond)) [
    | inl n ↦ rw (y, n) (tt, l)
    | inr n ↦ elim (Bool-cases (data_changed s.1 c.last_data)) [
      | inr same ↦ rw (y, n, same) (tt, l)
      | inl differs ↦ elim (Bool-cases c.logged_last) [
        | inl logged ↦ rw (y, n, differs, logged) ((f, tt), f)
        | inr not_logged ↦ rw (y, n, differs, not_logged) ((l, (f, tt)), f)
      ]
    ]
  ]
]

pub handle_sample-tick_counter :
    (c : Cyclic) (s : Sample) → (handle_sample c s.0 s.1).0.tick_counter ≡ c.tick_counter
unfolding handle_sample
handle_sample-tick_counter c s = ground arith

pub run_one :
    (c : Cyclic) (s : Sample)
    → c.tick_counter ≡ 0
    → run c (s ∷ []) ≡ handle_sample (record c { tick_counter = 0 }) s.0 s.1
unfolding run handle_cyclic_data
run_one c s e =
    let r = handle_sample (record c { tick_counter = 0 }) s.0 s.1 in
    rw e (ap (λ l. (r.0, l)) (append-nil r.1))
