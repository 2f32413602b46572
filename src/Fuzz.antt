-- ===== src/Fuzz.antt =====
-- The fuzzing target, fuzz.c.
pub mod Laws
use cloning_apps.Base.{
  ℕ, ℤ, zero, suc, pos, negsuc, Bool, true, false, Option, none, some, List, [], ◌∷◌, ltb, ◌+◌, ◌-◌,
  ◌*◌, ◌%◌, ◌==◌, ◌==ℤ◌, ◌+ℤ◌, ◌-ℤ◌, if◌then◌else◌, is_neg, is_pos, codes, bytes_eq, take, pos_part,
  neg_part, sub_ℕ, to_i32, ◌&&◌,
}
use cloning_apps.System.{
  Env, Reply, harness, xs_write, xs_watch_path, xs_read, xs_wait_event, xs_unwatch, asprintf, free,
  Cmd, pure, fault, out_of_fuel, ◌>>=◌, ◌>>◌, call, stale_word,
}

abbrev pub path1 : ℤ → ℤ
path1 x = to_i32 (x +ℤ pos 1)

abbrev pub path2 : ℤ → ℤ
path2 x = to_i32 (x +ℤ pos 12)

abbrev pub path3 : ℤ → ℤ
path3 x = to_i32 (sub_ℕ (pos_part x * 12) (neg_part x * 12))

abbrev pub path4 : ℤ → ℤ
path4 x = to_i32 (x -ℤ pos 1)

-- `x % 4`, which has the sign of `x`; no case of the `switch` is negative.
unfoldable pub take_path : ℤ → ℤ
take_path (negsuc n) = if suc n % 4 == 0 then path1 (negsuc n) else negsuc n
take_path (pos n) =
    if n % 4 == 0
    then path1 (pos n)
    else if n % 4 == 1
    then path2 (pos n)
    else if n % 4 == 2
    then path3 (pos n)
    else path4 (pos n)

-- `test1` and `test2`, as they are initialised.
abbrev pub test1 : List ℕ
test1 = codes "deadbeef"

abbrev pub test2 : List ℕ
test2 = codes "nottbeef"

-- `(int) s[0]`, of an array of signed `char`
abbrev pub first_char : List ℕ → ℤ
first_char [] = pos 0
first_char (c ∷ _) = if ltb c 128 then pos c else negsuc (255 - c)

-- `*y = x` through the NULL of `y`.
abbrev write_null : ℤ → Cmd ℕ
write_null x = fault

-- `test`, over the contents of the two arrays. It returns NULL, or writes through it.
unfoldable pub test : List ℕ → List ℕ → ℤ → Cmd ℕ
test a b x = if bytes_eq (take 8 a) (take 8 b) then write_null (take_path x) else pure 0

module _ ⦃env : Env⦄ where
  -- The loop of `wait_harness_trigger`, until the node reads "done".
  unfoldable pub wait_loop : ℕ → Cmd (Unit {0})
  wait_loop zero = out_of_fuel
  wait_loop (suc fuel) = do
    value ← call xs_read
    if (if value.ptr == 0 then false else bytes_eq value.bytes (codes "done"))
        then pure tt
        else call xs_wait_event >> wait_loop fuel

  -- The label `out` of `wait_harness_trigger`: `path` is freed and `watch` given up, if not NULL.
  unfoldable pub end_wait : ℕ → ℕ → ℤ → Cmd ℤ
  end_wait path watch rc =
      (if path == 0 then pure tt else (do call (free path); pure tt))
      >> (if watch == 0 then pure rc else (do call xs_unwatch; pure rc))

  -- `asprintf` allocates the path. `PTRISERR(watch)` tells an error by `errno`. On the first error
  -- `path` was never assigned.
  unfoldable pub wait_harness_trigger : ℕ → Cmd ℤ
  wait_harness_trigger fuel = do
    written ← call xs_write
    if written.value ==ℤ pos 0
        then (do
          path ← call (asprintf (codes "data/trigger-harness"))
          if is_pos path.value
              then (do
                watch ← call xs_watch_path
                if watch.errno == 0
                    then (do wait_loop fuel; end_wait path.ptr watch.ptr path.value)
                    else end_wait path.ptr watch.ptr (sub_ℕ 0 watch.errno))
              else end_wait path.ptr 0 path.value)
        else end_wait stale_word 0 written.value

  -- `my_init_module`: what it does with the two arrays as they stand at that time.
  unfoldable pub my_init_module : ℕ → List ℕ → List ℕ → Cmd ℤ
  my_init_module fuel a b = do
    wait_harness_trigger fuel
    call harness
    test a b (first_char a)
    call harness
    pure (pos 0)

  unfoldable pub thread_func_fuzz : ℕ → Cmd ℤ
  thread_func_fuzz fuel = my_init_module fuel test1 test2
