-- ===== src/Completion/Create.antt =====
-- The making and unmaking of verbs objects in rdma/Infiniband.cc: CompletionChannel::init,
-- CompletionQueue::init, the destructors, rearm_notify, set_nonblocking, create_comp_channel,
-- create_comp_queue and create_shared_receive_queue.
use workd.Prelude.{ℕ, ◌+◌, ◌/◌, ◌%◌, Option, none, some, Bool, true, false, ◌==◌, if◌then◌else◌}
use workd.Prelude.Int.{ℤ, pos, minus_one, is_neg, is_zero}
use workd.Prelude.Outcome.{Outcome, ok, fault, ◌>>=◌}

-- A pointer to an object of the verbs library, which may be gone.
pub data Pointer : Type 0 where
  null live dead : Pointer

-- The body of the three destructors: the object is destroyed through a pointer that is not null,
-- and it is asserted that this succeeds. An object that is gone cannot be destroyed.
unfoldable pub destroy : Bool → Pointer → Outcome (Unit {0})
destroy succeeds null = ok tt
destroy true live = ok tt
destroy false live = fault
destroy succeeds dead = fault

-- `set_nonblocking`, on what fcntl answers: the flags, or an error, and whether it takes new ones.
-- O_NONBLOCK is 2048.
unfoldable pub set_nonblocking : Option ℕ → (ℕ → Bool) → ℤ
set_nonblocking none takes = minus_one
set_nonblocking (some flags) takes =
    if takes (if flags / 2048 % 2 == 1 then flags else flags + 2048) then pos 0 else minus_one

-- What a channel's creation meets.
pub record ChannelAnswers : Type 0 where
  pub created : Bool
  pub flags : Option ℕ
  pub takes_flags : ℕ → Bool

-- CompletionChannel::init, and where its member then points: behind the second failure the channel
-- has been destroyed.
pub channel_init : ChannelAnswers → ℤ × Pointer
unfolding set_nonblocking
channel_init a =
    if a.created
    then (if is_neg (set_nonblocking a.flags a.takes_flags)
        then (minus_one, dead)
        else (pos 0, live))
    else (minus_one, null)

-- `none` is a null pointer.
unfoldable pub create_comp_channel : ChannelAnswers → Outcome (Option Pointer)
unfolding channel_init destroy
create_comp_channel a =
    let (r, p) = channel_init a in
    if is_zero r then ok (some p) else destroy true p >>= λ _. ok none

pub record QueueAnswers : Type 0 where
  pub created : Bool
  pub notified : Bool

-- CompletionQueue::init; `channel` is the member's pointer. Behind the second failure the queue has
-- been destroyed.
pub queue_init : Option Pointer → QueueAnswers → Outcome (ℤ × Pointer)
queue_init none a = fault
queue_init (some channel) a =
    if a.created
    then ok (if a.notified then (pos 0, live) else (minus_one, dead))
    else ok (minus_one, null)

unfoldable pub create_comp_queue : Option Pointer → QueueAnswers → Outcome (Option Pointer)
unfolding queue_init destroy
create_comp_queue channel a = do
  (r, p) ← queue_init channel a
  (if is_zero r then ok (some p) else destroy true p >>= λ _. ok none)

-- The code of `ibv_req_notify_cq`, which the callers ignore.
unfoldable pub rearm_notify : ℕ → ℤ
rearm_notify r = pos r

-- `ibv_srq_init_attr`: what `create_shared_receive_queue` asks for.
pub record SrqAttr : Type 0 where
  pub max_wr : ℕ
  pub max_sge : ℕ

unfoldable pub create_shared_receive_queue : (SrqAttr → Option ℕ) → ℕ → ℕ → Option ℕ
create_shared_receive_queue create max_wr max_sge =
    create (record { max_wr = max_wr; max_sge = max_sge })
