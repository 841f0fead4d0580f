-- ===== src/WorkerPool/Key.antt =====
-- worker_compare_key: the order in which workers are chosen.
use libatapp.Prelude.{
  ℕ, ◌-◌, ◌^◌, ◌≡◌, Bool, true, false, ◌&&◌, ◌||◌, not, arith, ltb, leb, ◌==◌, length,
  if◌then◌else◌,
}
use libatapp.WorkerPool.Worker.{Worker}

pub record Key : Type 0 where
  pub pending_job_size : ℕ
  pub last_second : ℕ
  pub last_minute : ℕ
  pub worker_id : ℕ
  pub worker_ptr : ℕ

-- operator<
unfoldable pub key_lt : Key → Key → Bool
key_lt l r =
    if not (l.pending_job_size == r.pending_job_size)
    then ltb l.pending_job_size r.pending_job_size
    else if (leb 8000 l.last_second || leb 8000 r.last_second)
        && not (l.last_second == r.last_second)
    then ltb l.last_second r.last_second
    else if not (l.last_minute == r.last_minute)
    then ltb l.last_minute r.last_minute
    else if not (l.worker_id == r.worker_id)
    then ltb l.worker_id r.worker_id
    else ltb l.worker_ptr r.worker_ptr

-- worker_compare_key::max
abbrev pub max_key : Key
max_key = record {
  pending_job_size = 2 ^ 64 - 1;
  last_second = 2 ^ 63 - 1;
  last_minute = 2 ^ 63 - 1;
  worker_id = 2 ^ 32 - 1;
  worker_ptr = 0;
}

abbrev pub make_compare_key : Worker → Key
make_compare_key w = record {
  pending_job_size = length w.private_jobs;
  last_second = w.cpu_time_last_second_busy_us;
  last_minute = w.cpu_time_last_minute_busy_us;
  worker_id = w.worker_id;
  worker_ptr = w.address;
}

-- What std::map and a search for the least key need of an order: neither of two keys comes before
-- the other only where they are keys of one worker with the same work to do.
pub record IsStrictOrder (lt : Key → Key → Bool) : Type 0 where
  pub irrefl : (a : Key) → lt a a ≡ false
  pub trans : (a b c : Key) → lt a b ≡ true → lt b c ≡ true → lt a c ≡ true
  pub total :
      (a b : Key)
      → lt a b ≡ false
      → lt b a ≡ false
      → (a.pending_job_size ≡ b.pending_job_size)
        × (a.last_minute ≡ b.last_minute)
        × (a.worker_id ≡ b.worker_id)
        × (a.worker_ptr ≡ b.worker_ptr)

-- operator< is a strict order that is total up to the seconds figure: the test of 8000 microseconds
-- in it does not break transitivity.
pub key_lt-IsStrictOrder : IsStrictOrder key_lt
unfolding key_lt
key_lt-IsStrictOrder = record {
  irrefl = λ a. ground arith;
  trans = λ a b c p q. ground arith;
  total = λ a b p q. ground arith;
}

-- Where a is not after b and b is not after c, a is not after c.
pub key_lt_negtrans : (a b c : Key) → key_lt b a ≡ false → key_lt c b ≡ false → key_lt c a ≡ false
unfolding key_lt
key_lt_negtrans a b c p q = ground arith

pub key_lt_asym : (a b : Key) → key_lt a b ≡ true → key_lt b a ≡ false
unfolding key_lt
key_lt_asym a b p = ground arith
