-- ===== src/Snowflake/Layout.antt =====
-- internal/snowflake/snowflake.go: the three fields of an ID, and the order that they give.
use alfred_brave_com.Base.{ℕ, ◌+◌, ◌-◌, ◌*◌, ◌/◌, ◌%◌, ◌^◌, ◌≤◌, ◌<◌, ◌≡◌, ◌⊎◌, arith}
use alfred_brave_com.Base.Bits.{or-shifted}
use alfred_brave_com.Snowflake.{epoch, make_id}

-- A time that the layout holds: after the epoch, and before the sign bit is reached.
pub record InRange (now worker seq : ℕ) : Type 0 where
  pub started : epoch ≤ now
  pub before_sign : now < epoch + 2 ^ 50
  pub worker_fits : worker < 8
  pub seq_fits : seq < 1024

-- In range, an ID is the plain sum of its fields.
pub make_id-sum :
    (now worker seq : ℕ)
    → InRange now worker seq
    → make_id now worker seq ≡ (now - epoch) * 8192 + worker * 1024 + seq
unfolding make_id
make_id-sum now worker seq r =
    let since : (now + 2 ^ 64 - epoch) % 2 ^ 64 ≡ now - epoch =
      omega (arith, r.started, r.before_sign) in
    let shifted : (now - epoch) * 2 ^ 13 % 2 ^ 64 ≡ (now - epoch) * 2 ^ 13 =
      omega (arith, r.before_sign) in
    let high = or-shifted 13 (now - epoch) (worker * 2 ^ 10) (omega (arith, r.worker_fits)) in
    let low = or-shifted 10 ((now - epoch) * 8 + worker) seq (omega (arith, r.seq_fits)) in
    let same : (now - epoch) * 2 ^ 13 + worker * 2 ^ 10 ≡ ((now - epoch) * 8 + worker) * 2 ^ 10 =
      omega arith in
    rw (since, shifted, high, same, low) (omega arith)

-- The fields of an ID can be read back from it.
pub make_id_fields :
    (now worker seq : ℕ)
    → InRange now worker seq
    → (make_id now worker seq / 8192 + epoch ≡ now)
      × (make_id now worker seq / 1024 % 8 ≡ worker)
      × (make_id now worker seq % 1024 ≡ seq)
make_id_fields now worker seq r = rw (make_id-sum now worker seq r) (
  omega (arith, r.started, r.worker_fits, r.seq_fits),
  omega (arith, r.worker_fits, r.seq_fits),
  omega (arith, r.seq_fits),
)

-- A later time, or a later number in the same millisecond, gives a greater ID.
pub make_id-lt :
    (now now' worker seq seq' : ℕ)
    → InRange now worker seq
    → InRange now' worker seq'
    → (now < now') ⊎ ((now ≡ now') × (seq < seq'))
    → make_id now worker seq < make_id now' worker seq'
make_id-lt now now' worker seq seq' r r' h =
    rw (make_id-sum now worker seq r, make_id-sum now' worker seq' r')
      (omega (arith, h, r.started, r'.started, r.worker_fits, r.seq_fits))
