-- ===== src/HashMap/Put.antt =====
-- `map_put` with its growth, and `map_clear`, over what each key finds.
use c_roblib.Base.{
  ℕ, suc, ◌+◌, ◌*◌, ◌/◌, min, ◌≡◌, ◌<◌, ◌≤◌, ◌⊎◌, inl, inr, refl, sym, ap, ◌∙◌, true, List, [],
  Option, some, Bool-cases, eq-or-ne, if◌then◌else◌, leb, arith, replicate, length-replicate,
  get_or-replicate,
}
use c_roblib.Collections.{ColValue, value_null}
use c_roblib.HashMap.{
  HashMap, MapNode, find, value_of, get, index_for, rehash, grow_loop, enlarge, ensure_capacity,
  grown, put_node, put, clear, max_num_buckets, recalc_load,
}
use c_roblib.HashMap.Keys.{MapKey, equals_key}
use c_roblib.HashMap.Buckets.{value_in}
use c_roblib.HashMap.Placed.{replicate-Placed, total-replicate}
use c_roblib.HashMap.Growth.{find-grown, length-rehash}
use c_roblib.HashMap.Moved.{grown-Placed}
use c_roblib.HashMap.Inv.{IsValid}
use c_roblib.HashMap.Insert.{put_node_refines}

-- Growth: at the greatest number of buckets nothing happens; below it, a full map gets twice as
-- many.
module _ (rounds : ℕ) (map : HashMap) where
  abbrev bigger : HashMap
  bigger =
      let n = min (map.num_buckets * 2) max_num_buckets in
      recalc_load (record map {
        buckets = rehash n (replicate n []) map.buckets;
        num_buckets = n;
        fill_capacity = n * 3 / 4;
      })

  ensure_capacity-greatest :
      (size : ℕ)
      → map.num_buckets ≡ max_num_buckets
      → ensure_capacity (suc rounds) true map size ≡ some map
  unfolding ensure_capacity grow_loop enlarge
  ensure_capacity-greatest size e = ground arith

  ensure_capacity-full :
      IsValid map
      → map.num_buckets < max_num_buckets
      → map.size ≡ map.fill_capacity
      → ensure_capacity (suc rounds) true map (map.size + 1) ≡ some bigger
  unfolding ensure_capacity grow_loop enlarge
  ensure_capacity-full v below full = ground arith

  bigger-IsValid :
      IsValid map
      → map.num_buckets < max_num_buckets
      → map.size ≡ map.fill_capacity
      → IsValid bigger
  bigger-IsValid v below full =
      let n = min (map.num_buckets * 2) max_num_buckets in
      let moved = grown-Placed n map.num_buckets map.buckets (omega (arith, v.many)) v.placed in
      record {
        count =
            length-rehash n (replicate n []) map.buckets ∙ length-replicate {A = List MapNode} n [];
        many = omega (arith, v.many);
        bounded = omega arith;
        placed = moved.0;
        sized = v.sized ∙ sym moved.1;
        filled = refl;
        in_capacity = inl (omega (arith, v.filled));
      }

-- What `map_put` has before it looks for the key.
record Grown (map : HashMap) (out : Option HashMap) (k' : MapKey) : Type 0 where
  map' : HashMap
  same : out ≡ some map'
  valid : IsValid map'
  room : (map'.size + 1 ≤ map'.fill_capacity) ⊎ (map'.num_buckets ≡ max_num_buckets)
  reads : get map' k' ≡ get map k'

grown_lem :
    (rounds : ℕ) (map : HashMap) (k' : MapKey)
    → IsValid map
    → Grown map (grown (suc rounds) true map) k'
unfolding grown get
grown_lem rounds map k' v = elim (Bool-cases (leb map.fill_capacity map.size)) [
  | inr e ↦ record {
    map' = map;
    same = rw (e, grown) refl;
    valid = v;
    room = inl (ground arith);
    reads = refl;
  }
  | inl e ↦ elim v.in_capacity [
    | inr greatest ↦ at_greatest e greatest
    | inl within ↦ elim (eq-or-ne map.num_buckets max_num_buckets) [
      | inl greatest ↦ at_greatest e greatest
      | inr apart ↦
          let below : map.num_buckets < max_num_buckets = ground (arith, v.bounded) in
          let full : map.size ≡ map.fill_capacity = ground arith in
          let n = min (map.num_buckets * 2) max_num_buckets in
          record {
            map' = bigger rounds map;
            same = rw (e, grown) (ensure_capacity-full rounds map v below full);
            valid = bigger-IsValid rounds map v below full;
            room = inl (omega (arith, v.filled, v.many));
            reads =
                ap value_of
                  (find-grown n map.num_buckets map.buckets k' (omega (arith, v.many)) v.placed);
          }
    ]
  ]
]
  where
    at_greatest :
        leb map.fill_capacity map.size ≡ true
        → map.num_buckets ≡ max_num_buckets
        → Grown map (grown (suc rounds) true map) k'
    at_greatest e greatest = record {
      map' = map;
      same = rw (e, grown) (ensure_capacity-greatest rounds map (map.size + 1) greatest);
      valid = v;
      room = inr greatest;
      reads = refl;
    }

-- With memory for what it needs, `map_put` of a valid map comes back, after one round of its loop
-- where it has to grow the map first. The map stays valid; the key, and every key equal to it, then reads as the value, and
-- every other key as before.
pub put_refines :
    (rounds : ℕ) (map : HashMap) (k k' : MapKey) (w : ColValue)
    → IsValid map
    → (map' : HashMap) × (put (suc rounds) true true map k w ≡ some map')
      × IsValid map'
      × (get map' k' ≡ (if equals_key k' k then w else get map k'))
unfolding put
put_refines rounds map k k' w v =
    let g = grown_lem rounds map k' v in
    let (valid, reads) = put_node_refines g.map' k w k' g.valid g.room in
    (
      put_node true g.map' k w,
      rw (g.same, put) refl,
      valid,
      reads ∙ ap (λ r. if equals_key k' k then w else r) g.reads,
    )

-- `map_clear` of a valid map keeps it valid, with no entries, and every key then reads as null.
pub clear_refines :
    (map : HashMap) (k : MapKey)
    → IsValid map
    → IsValid (clear map) × ((clear map).size ≡ 0) × (get (clear map) k ≡ value_null)
unfolding clear get find
clear_refines map k v = (
  record {
    count = length-replicate {A = List MapNode} map.num_buckets [];
    many = v.many;
    bounded = v.bounded;
    placed = replicate-Placed map.num_buckets 0 map.num_buckets;
    sized = sym (total-replicate map.num_buckets);
    filled = v.filled;
    in_capacity = inl (omega arith);
  },
  refl,
  ap (value_in k) (get_or-replicate map.num_buckets (index_for k map.num_buckets) []),
)
