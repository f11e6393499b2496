-- ===== src/HashMap/Inv.antt =====
-- The representation invariant of the hash map.
use c_roblib.Base.{◌*◌, ◌/◌, ◌≡◌, ◌≤◌, ◌⊎◌, length}
use c_roblib.HashMap.{HashMap, max_num_buckets}
use c_roblib.HashMap.Placed.{Placed, total}

pub record IsValid (map : HashMap) : Type 0 where
  pub count : length map.buckets ≡ map.num_buckets
  pub many : 16 ≤ map.num_buckets
  pub bounded : map.num_buckets ≤ max_num_buckets
  pub placed : Placed map.num_buckets 0 map.buckets
  pub sized : map.size ≡ total map.buckets
  pub filled : map.fill_capacity ≡ map.num_buckets * 3 / 4
  -- Below the greatest number of buckets, the map grows before it is over-full.
  pub in_capacity : (map.size ≤ map.fill_capacity) ⊎ (map.num_buckets ≡ max_num_buckets)
