-- ===== src/FlowSlicing.antt =====
-- The slicing of bodies, filter/FlowSlicingFilter.h and filter/FlowSlicingFilter.cpp. The next
-- filter on the way out is a function from the bytes of a slice to its result, in which 0
-- (HEC_SUCCESS, `false`) is success; the body for the filter before on the way in is returned.
mod Tests
pub mod Pieces
pub mod Shuffled
pub mod Reassembly
use hudp.Common.{
  ℕ, zero, suc, ◌+◌, ◌-◌, ◌/◌, ◌%◌, Bool, true, false, Option, none, some, List, [], ◌∷◌, ◌++◌, ltb,
  leb, ◌==◌, if◌then◌else◌, length, take, drop, u16,
}
use hudp.Config.{msg_body_size}
use hudp.BitStream.{to_bytes, of_bytes}

-- `sizeof(SliceHead)`, three words of 16 bits.
abbrev pub slice_header_size : ℕ
slice_header_size = 6

abbrev pub slice_limit : ℕ
slice_limit = msg_body_size - slice_header_size

pub record SliceHead : Type 0 where
  pub count : ℕ
  pub index : ℕ
  pub flag : ℕ

pub record SliceBag : Type 0 where
  pub head : SliceHead
  pub body : List ℕ

-- The head is copied as it lies in memory, its words in little-endian order.
unfoldable pub slice_bag_to_string : SliceBag → List ℕ
unfolding to_bytes
slice_bag_to_string bag =
    (to_bytes 2 bag.head.count ++ (to_bytes 2 bag.head.index ++ to_bytes 2 bag.head.flag))
    ++ bag.body

-- On fewer bytes than a head has, where the source has no defined behaviour, the result is `none`.
unfoldable pub string_to_slice_bag : List ℕ → Option SliceBag
unfolding of_bytes
string_to_slice_bag msg =
    if ltb (length msg) slice_header_size
    then none
    else some (record {
      head = record {
        count = of_bytes (take 2 msg);
        index = of_bytes (take 2 (drop 2 msg));
        flag = of_bytes (take 2 (drop 4 msg));
      };
      body = drop slice_header_size msg;
    })

-- `slice_num`.
abbrev pub slice_num : ℕ → ℕ
slice_num total_size =
    total_size / slice_limit + (if ltb 0 (total_size % slice_limit) then 1 else 0)

-- The data of the next slice, from what is left of the body.
abbrev pub slice_data : List ℕ → List ℕ
slice_data rest = if ltb (length rest) slice_limit then rest else take slice_limit rest

-- The loop of `FilterProcess`: what the next filter is given, and the result.
unfoldable pub send_slices : (List ℕ → Bool) → ℕ → ℕ → ℕ → ℕ → List ℕ → List (List ℕ) × Bool
unfolding slice_bag_to_string
send_slices next count flag zero i rest = ([], true)
send_slices next count flag (suc n) i rest =
    let bag : SliceBag = record {
      head = record { count = u16 count; index = u16 i; flag = flag };
      body = slice_data rest;
    } in
    let s = slice_bag_to_string bag in
    let others = send_slices next count flag n (i + 1) (drop slice_limit rest) in
    if next s then (s ∷ [], false) else (s ∷ others.0, others.1)

-- `FilterProcess` with its counter `_cur_flag`: the new counter, the slices, and the result.
unfoldable pub filter_process : (List ℕ → Bool) → List ℕ → ℕ → ℕ × List (List ℕ) × Bool
unfolding send_slices
filter_process next body cur_flag =
    let flag = u16 (cur_flag + 1) in
    let n = slice_num (length body) in
    let (sent, done) = send_slices next n flag n 0 body in (flag, sent, done)

abbrev pub SliceMap : Type 0
SliceMap = List (ℕ × List SliceBag)

-- `_slice_map[flag]`, which makes an empty entry where there is none.
abbrev pub bags_of : ℕ → SliceMap → List SliceBag
bags_of flag [] = []
bags_of flag ((k, bags) ∷ m) = if k == flag then bags else bags_of flag m

abbrev pub erase : ℕ → SliceMap → SliceMap
erase flag [] = []
erase flag ((k, bags) ∷ m) = let rest = erase flag m in if k == flag then m else (k, bags) ∷ rest

-- An entry is replaced by a new one.
abbrev pub store_bags : ℕ → List SliceBag → SliceMap → SliceMap
store_bags flag bags m = (flag, bags) ∷ erase flag m

-- `std::sort` with `SliceBagComparer`. The order of slices with one index is open in the source; here
-- it is that of their arrival.
unfoldable pub insert_bag : SliceBag → List SliceBag → List SliceBag
insert_bag bag [] = bag ∷ []
insert_bag bag (b ∷ bags) =
    let rest = insert_bag bag bags in
    if leb bag.head.index b.head.index then bag ∷ b ∷ bags else b ∷ rest

unfoldable pub sort_bags : List SliceBag → List SliceBag
unfolding insert_bag
sort_bags [] = []
sort_bags (bag ∷ bags) = insert_bag bag (sort_bags bags)

abbrev pub join : List SliceBag → List ℕ
join [] = []
join (bag ∷ bags) = bag.body ++ join bags

-- `RelieveFilterProcess` on a parsed slice: the new map, and the body that is handed on, if any.
unfoldable pub add_bag : SliceBag → SliceMap → SliceMap × Option (List ℕ)
unfolding sort_bags
add_bag bag m =
    let flag = bag.head.flag in
    let bags = bags_of flag m ++ (bag ∷ []) in
    if bag.head.count == u16 (length bags)
    then (erase flag m, some (join (sort_bags bags)))
    else (store_bags flag bags m, none)

unfoldable pub relieve_filter_process : List ℕ → SliceMap → Option (SliceMap × Option (List ℕ))
unfolding string_to_slice_bag add_bag
relieve_filter_process body m = elim (string_to_slice_bag body) [
  | none ↦ none
  | some bag ↦ some (add_bag bag m)
]
