-- ===== src/Site/Series/Sums.antt =====
-- internal/storage/series.go: lengths and sums over the points, and the arithmetic of the buckets.
use uptime_monitor_api.Base.{
  ℕ, zero, suc, ◌+◌, ◌-◌, ◌*◌, ◌/◌, ◌≡◌, ◌<◌, ◌≤◌, refl, ap, ◌∙◌, some, List, [], ◌∷◌, ◌==◌,
  if◌then◌else◌, length, get_elem?, arith,
}
use uptime_monitor_api.Site.Tables.{ResultRow}
use uptime_monitor_api.Site.Series.{Point, in_bucket, bucket, bucket_secs, set_at, fill, blanks}
use native.Mathlib.Nat.{lt-div-mul-add, mul_comm}

pub length-set_at :
    (b : ℕ) (f : Point → Point) (ps : List Point) → length (set_at b f ps) ≡ length ps
length-set_at b f [] = refl
length-set_at zero f (p ∷ ps) = refl
length-set_at (suc b) f (p ∷ ps) = ap suc (length-set_at b f ps)

pub length-fill :
    (f : List ResultRow → Point → Point) (gs : List (ℕ × List ResultRow)) (ps : List Point)
    → length (fill f gs ps) ≡ length ps
unfolding fill
length-fill f [] ps = refl
length-fill f ((b, g) ∷ gs) ps = length-fill f gs _ ∙ length-set_at b (f g) ps

pub length-blanks : (from secs i left : ℕ) → length (blanks from secs i left) ≡ left
unfolding blanks
length-blanks from secs i zero = refl
length-blanks from secs i (suc left) = ap suc (length-blanks from secs (i + 1) left)

abbrev pub total_checks : List Point → ℕ
total_checks [] = 0
total_checks (p ∷ ps) = p.checks + total_checks ps

abbrev pub sum_below : ℕ → (ℕ → ℕ) → ℕ
sum_below zero f = 0
sum_below (suc n) f = f 0 + sum_below n (λ i. f (suc i))

pub total-sum_below :
    (ps : List Point) (mk : ℕ → Point)
    → ((i : ℕ) → i < length ps → get_elem? ps i ≡ some (mk i))
    → total_checks ps ≡ sum_below (length ps) (λ i. (mk i).checks)
total-sum_below [] mk h = refl
total-sum_below (p ∷ ps) mk h =
    let first = h 0 (omega arith) in
    let rest = total-sum_below ps (λ i. mk (suc i)) (λ i l. h (suc i) (omega arith)) in ground arith

abbrev pub one_at : ℕ → ℕ → ℕ
one_at zero zero = 1
one_at zero (suc i) = 0
one_at (suc k) zero = 0
one_at (suc k) (suc i) = one_at k i

pub one_at-if : (k i : ℕ) → one_at k i ≡ (if k == i then 1 else 0)
one_at-if zero zero = refl
one_at-if zero (suc i) = ground arith
one_at-if (suc k) zero = ground arith
one_at-if (suc k) (suc i) = one_at-if k i ∙ ground arith

pub sum_below-zero : (n : ℕ) → sum_below n (λ i. 0) ≡ 0
sum_below-zero zero = refl
sum_below-zero (suc n) = omega (arith, sum_below-zero n)

pub sum_below-one_at : (n k : ℕ) → k < n → sum_below n (one_at k) ≡ 1
sum_below-one_at zero k h = absurd (omega arith)
sum_below-one_at (suc n) zero h = ap (λ m. 1 + m) (sum_below-zero n)
sum_below-one_at (suc n) (suc k) h = let rest = sum_below-one_at n k (omega arith) in omega arith

pub sum_below-add :
    (n : ℕ) (f g h : ℕ → ℕ)
    → ((i : ℕ) → h i ≡ f i + g i)
    → sum_below n h ≡ sum_below n f + sum_below n g
sum_below-add zero f g h e = refl
sum_below-add (suc n) f g h e =
    let first = e 0 in
    let rest =
      sum_below-add n (λ i. f (suc i)) (λ i. g (suc i)) (λ i. h (suc i)) (λ i. e (suc i)) in
    omega arith

pub length-in_bucket :
    (key : ResultRow → ℕ) (i : ℕ) (r : ResultRow) (rows : List ResultRow)
    → length (in_bucket key i (r ∷ rows)) ≡ one_at (key r) i + length (in_bucket key i rows)
length-in_bucket key i r rows = ground (arith, one_at-if (key r) i)

-- Every row is in one bucket.
pub sum_below-in_bucket :
    (key : ResultRow → ℕ) (n : ℕ)
    → ((r : ResultRow) → key r < n)
    → (rows : List ResultRow) → sum_below n (λ i. length (in_bucket key i rows)) ≡ length rows
sum_below-in_bucket key n h [] = sum_below-zero n
sum_below-in_bucket key n h (r ∷ rs) =
    sum_below-add n (one_at (key r)) (λ i. length (in_bucket key i rs)) _
      (λ i. length-in_bucket key i r rs)
    ∙ ap (λ m. m + sum_below n (λ i. length (in_bucket key i rs)))
        (sum_below-one_at n (key r) (h r))
    ∙ (let rest = sum_below-in_bucket key n h rs in omega arith)

pub bucket-lt : (from secs n : ℕ) (r : ResultRow) → 0 < n → bucket from secs (n - 1) r < n
unfolding bucket
bucket-lt from secs n r h = ground arith

-- A quotient that is rounded up covers its dividend.
pub div-covers : (a n : ℕ) → 0 < n → a ≤ n * ((a + n - 1) / n)
div-covers a n h =
    let q = (a + n - 1) / n in
    let above = lt-div-mul-add {a = a + n - 1} {b = n} h in
    let swapped = mul_comm q n in omega arith

pub bucket_secs-reaches : (from to n : ℕ) → 0 < n → to ≤ from + n * bucket_secs from to n
unfolding bucket_secs
bucket_secs-reaches from to n h =
    let one = div-covers 1 n h in let span = div-covers (to - from) n h in ground arith
