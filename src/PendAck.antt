-- ===== src/PendAck.antt =====
-- The acks that wait to be sent, common/PendAck.h and common/PendAck.cpp. `std::map` is a list of
-- its entries in the order of its keys; a call of `_ack_now_call_back` is a flag beside the result.
mod Tests
pub mod Map
pub mod Take
pub mod Continuity
pub mod Accounting
use hudp.Common.{
  ℕ, ◌+◌, ◌-◌, Bool, true, false, not, ◌&&◌, List, [], ◌∷◌, ◌++◌, ltb, leb, ◌==◌, if◌then◌else◌,
  length, is_empty, u16, u32, sub16, sub32,
}
use hudp.Config.{mtu}

abbrev pub id_length : ℕ
id_length = 2

abbrev pub time_length : ℕ
time_length = 8

abbrev pub ack_length_limit : ℕ
ack_length_limit = mtu - time_length - id_length

abbrev pub AckMap : Type 0
AckMap = List (ℕ × ℕ)

pub record PendAck : Type 0 where
  pub cur_size : ℕ
  pub ack_map : AckMap

abbrev pub new_pend_ack : PendAck
new_pend_ack = record { cur_size = 0; ack_map = [] }

-- `_ack_map[id] = time`.
unfoldable pub insert : ℕ → ℕ → AckMap → AckMap
insert id time [] = (id, time) ∷ []
insert id time ((k, t) ∷ m) =
    if ltb id k
    then (id, time) ∷ (k, t) ∷ m
    else if id == k
    then (id, time) ∷ m
    else (k, t) ∷ insert id time m

-- `AddAck(ack_id)`; the flag says whether the call back is made.
unfoldable pub add_ack : ℕ → PendAck → PendAck × Bool
add_ack ack_id p =
    let cur_size = u32 (p.cur_size + id_length) in
    (
      record { cur_size = cur_size; ack_map = insert ack_id 0 p.ack_map },
      leb ack_length_limit cur_size,
    )

-- `AddAck(ack_id, send_time)`.
unfoldable pub add_ack_time : ℕ → ℕ → PendAck → PendAck × Bool
add_ack_time ack_id send_time p =
    let cur_size = u32 (p.cur_size + (id_length + time_length)) in
    (
      record { cur_size = cur_size; ack_map = insert ack_id send_time p.ack_map },
      leb ack_length_limit cur_size,
    )

-- `Clear` leaves the size alone.
unfoldable pub clear : PendAck → PendAck
clear p = record p { ack_map = [] }

-- The variables of the loops of `GetAck` and `GetAllAck` when they end.
pub record Collected : Type 0 where
  pub ack_vec : List ℕ
  pub time_vec : List ℕ
  pub continuity : Bool
  pub cur_szie : ℕ
  pub rest : AckMap

-- `if (prev_tmp != 0 && prev_tmp != (uint16_t)(id - 1)) continuity = false;`
abbrev pub still_continuous : ℕ → ℕ → Bool → Bool
still_continuous prev_tmp id continuity =
    if not (prev_tmp == 0) && not (prev_tmp == sub16 id 1) then false else continuity

-- The loop of `GetAck`, from the variables at the top of a round.
unfoldable pub get_loop : ℕ → List ℕ → List ℕ → Bool → ℕ → ℕ → AckMap → Collected
get_loop size_limit acks times continuity prev_tmp cur_szie [] = record {
  ack_vec = acks;
  time_vec = times;
  continuity = continuity;
  cur_szie = cur_szie;
  rest = [];
}
get_loop size_limit acks times continuity prev_tmp cur_szie ((id, time) ∷ m) =
    let stop : ℕ → Collected = λ size. record {
      ack_vec = acks;
      time_vec = times;
      continuity = continuity;
      cur_szie = size;
      rest = (id, time) ∷ m;
    } in
    let timed = not (time == 0) in
    let with_time = u16 (cur_szie + time_length) in
    let size = u16 ((if timed then with_time else cur_szie) + id_length) in
    let next =
      get_loop size_limit (acks ++ (id ∷ [])) (if timed then times ++ (time ∷ []) else times)
        (still_continuous prev_tmp id continuity) id size m in
    if timed && leb size_limit with_time
    then stop with_time
    else if leb size_limit size
    then stop size
    else next

-- `if (continuity && ack_vec.size() == 1) continuity = false;`
abbrev pub final_continuity : Bool → List ℕ → Bool
final_continuity continuity acks = if continuity && (length acks == 1) then false else continuity

-- `GetAck`: the vectors and the flag are passed in and out; the last part is the result.
get_from : AckMap → List ℕ → List ℕ → Bool → ℕ → PendAck → PendAck × List ℕ × List ℕ × Bool × Bool
get_from [] ack_vec time_vec continuity size_limit p = (p, ack_vec, time_vec, continuity, false)
get_from (entry ∷ m) ack_vec time_vec continuity size_limit p =
    let c = get_loop size_limit ack_vec time_vec continuity 0 0 (entry ∷ m) in
    (
      record { cur_size = sub32 p.cur_size c.cur_szie; ack_map = c.rest },
      c.ack_vec,
      c.time_vec,
      final_continuity c.continuity c.ack_vec,
      true,
    )

unfoldable pub get_ack :
    List ℕ → List ℕ → Bool → ℕ → PendAck → PendAck × List ℕ × List ℕ × Bool × Bool
unfolding get_from
get_ack ack_vec time_vec continuity size_limit p =
    get_from p.ack_map ack_vec time_vec continuity size_limit p

unfoldable pub get_all_loop : List ℕ → List ℕ → Bool → ℕ → AckMap → List ℕ × List ℕ × Bool
get_all_loop acks times continuity prev_tmp [] = (acks, times, continuity)
get_all_loop acks times continuity prev_tmp ((id, time) ∷ m) =
    get_all_loop (acks ++ (id ∷ [])) (if time == 0 then times else times ++ (time ∷ []))
      (still_continuous prev_tmp id continuity) id m

get_all_from : AckMap → List ℕ → List ℕ → Bool → PendAck → PendAck × List ℕ × List ℕ × Bool × Bool
get_all_from [] ack_vec time_vec continuity p = (p, ack_vec, time_vec, continuity, false)
get_all_from (entry ∷ m) ack_vec time_vec continuity p =
    let (acks, times, c) = get_all_loop ack_vec time_vec true 0 (entry ∷ m) in
    (new_pend_ack, acks, times, final_continuity c acks, true)

-- `GetAllAck`, in the same form; it sets the flag itself.
unfoldable pub get_all_ack :
    List ℕ → List ℕ → Bool → PendAck → PendAck × List ℕ × List ℕ × Bool × Bool
unfolding get_all_from
get_all_ack ack_vec time_vec continuity p = get_all_from p.ack_map ack_vec time_vec continuity p

unfoldable pub has_ack : PendAck → Bool
has_ack p = not (is_empty p.ack_map)
