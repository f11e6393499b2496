-- ===== src/StringBuilder/Copy.antt =====
-- `sb_init` and `sb_copy_to`.
use c_roblib.Base.{
  ℕ, zero, suc, ◌+◌, ◌-◌, ◌*◌, ◌/◌, ◌%◌, ◌^◌, ◌≤◌, ◌<◌, ◌≡◌, refl, ap, arith, true, false, List, [],
  ◌∷◌, ◌++◌, Option, none, some, if◌then◌else◌, ltb, ◌==◌, ◌&&◌, length, get_or, get_or_beyond,
  take, take_all, length-append, length-take, length-replicate, get_or-replicate, replicate,
}
use c_roblib.Base.Shift.{get_or-++, get_or-take, get_or-set}
use c_roblib.StringBuilder.{
  StringBuilder, System, scaled, chosen_capacity, init, strncpy, overwrite, copy_to,
}
use c_roblib.StringBuilder.Text.{
  IsValid, text, get_or-text, length-overwrite, get_or-overwrite, Holds, reads-Holds,
}
use c_roblib.StringBuilder.Replace.{IsString}

strncpy_lem :
    (n m : ℕ) (bytes : List ℕ)
    → n ≤ m
    → m ≤ length bytes
    → IsString (take m bytes)
    → strncpy n bytes ≡ take n bytes
unfolding strncpy
strncpy_lem zero m bytes h k s = refl
strncpy_lem (suc n) zero bytes h k s = absurd (omega arith)
strncpy_lem (suc n) (suc m) [] h k s = absurd (omega arith)
strncpy_lem (suc n) (suc m) (c ∷ cs) h k (pos, s) =
    let more : (c == 0) ≡ false = ground arith in
    rw more (ap (λ t. c ∷ t) (strncpy_lem n m cs (omega arith) (omega arith) s))

-- The copy of a text without terminators in it: its bytes, as many as the buffer has, and a terminator
-- in the buffer's last place. Between the text and that place the buffer keeps what it held, so that
-- the copy need not end where the text does.
pub get_or-copy_to :
    (sb : StringBuilder) (buf_size : ℕ) (out_buffer : List ℕ)
    → IsValid sb
    → IsString (text sb)
    → 0 < buf_size
    → length out_buffer ≡ buf_size
    → (j : ℕ)
    → get_or (copy_to sb buf_size out_buffer) j 0 ≡ (
        if j == buf_size - 1
        then 0
        else if ltb j sb.length && ltb j buf_size
        then get_or (text sb) j 0
        else get_or out_buffer j 0)
unfolding copy_to
get_or-copy_to sb buf_size out_buffer valid string some_room size j =
    let n = if ltb sb.length buf_size then sb.length else buf_size in
    let least : (n ≤ sb.length) × (n ≤ buf_size) = ground arith in
    let copied =
      strncpy_lem n sb.length sb.buffer least.0 (omega (arith, valid.whole, valid.within)) string in
    let long : length (take n sb.buffer) ≡ n =
      omega (arith, length-take n sb.buffer, valid.whole, valid.within, least.0) in
    let fits : 0 + length (take n sb.buffer) ≤ length out_buffer =
      omega (arith, long, size, least.1) in
    let body = overwrite 0 (take n sb.buffer) out_buffer in
    let bytes = length-overwrite 0 (take n sb.buffer) out_buffer fits in
    rw copied (
      ground (
        arith,
        get_or-set body (buf_size - 1) j 0 0 (omega (arith, bytes, size)),
        get_or-overwrite 0 (take n sb.buffer) out_buffer j fits,
        long,
        get_or-take n j sb.buffer 0,
        get_or-text sb valid j,
      ))

chosen_capacity_enough :
    (system : System) (capacity str_len : ℕ)
    → capacity * 4 / 3 < 2 ^ 32
    → str_len * 4 / 3 < 2 ^ 32
    → (str_len ≤ chosen_capacity system capacity str_len)
      × (capacity ≤ chosen_capacity system capacity str_len)
unfolding chosen_capacity scaled
chosen_capacity_enough system capacity str_len h k = ground arith

-- The builder holds the string.
pub data Started (str : List ℕ) (capacity : ℕ) : Option StringBuilder → Type 0 where
  started :
      (sb : StringBuilder)
      → Holds sb str
      → sb.place ≡ none
      → capacity ≤ sb.capacity
      → Started str capacity (some sb)

-- Where four thirds of the capacity asked for and of the string's length fit into `uint32_t` and the
-- C library gives memory, the builder holds the string, with at least that capacity.
pub init-Started :
    (page_size : ℕ) (convert : ℕ → ℕ) (capacity : ℕ) (str : List ℕ)
    → capacity * 4 / 3 < 2 ^ 32
    → length str * 4 / 3 < 2 ^ 32
    → Started str capacity
        (init (record { page_size = page_size; granted = true; convert = convert }) capacity str)
unfolding init
init-Started page_size convert capacity str h k =
    let system : System = record { page_size = page_size; granted = true; convert = convert } in
    let n = length str in
    let word : n % 2 ^ 32 ≡ n = omega (arith, k) in
    let chosen = chosen_capacity system capacity n in
    let enough = chosen_capacity_enough system capacity n h k in
    let spare : List ℕ = replicate (chosen + 1 - n) 0 in
    let size : length spare ≡ chosen + 1 - n = length-replicate {A = ℕ} (chosen + 1 - n) 0 in
    let sb : StringBuilder = record {
      capacity = chosen;
      length = n;
      place = none;
      buffer = str ++ spare;
    } in
    rw (word, take_all str)
      (started sb
        (reads-Holds sb str (omega (arith, length-append str spare, size, enough.0)) enough.0 refl
          λ j. ground (
            arith,
            get_or-++ str spare j 0,
            get_or-replicate {A = ℕ} (chosen + 1 - n) (j - n) 0,
            get_or_beyond str j 0,
          ))
        refl enough.1)
