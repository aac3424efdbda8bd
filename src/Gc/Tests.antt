-- ===== src/Gc/Tests.antt =====
-- Runs of the collector.
use animula.Prelude.{ℕ, ◌≡◌, refl, true, false, Option, none, some, List, [], ◌∷◌, arith}
use animula.Run.{Run, ok, panic, fault, ◌>>=◌}
use animula.Object.{OType, Object}
use animula.Vm.Memory.{read, write, store_byte, object_bytes}
use animula.Gc.{
  Block, Blocks, Gc, object, pair_of, list_of, plain, gc_init, gc_obj_book, gc_inner_obj_book,
  with_block,
}
use animula.Gc.Free.{
  free_object, free_inner_object, free_pair, free_nodes, get_gc_from_node, set_gc_to_node,
}
use animula.Gc.Roots.{
  Info, build_active_root, frame_loop, active_root_insert_frame, insert_captured,
  active_root_inner_insert, active_root_insert, insert_pair, insert_list, insert_all, insert_value,
}
use animula.Gc.Collect.{
  collect, collect_inner, collect_pools, collect_all, release_all_free_objects, sweep, gc,
  simple_collect, gc_try_to_recycle,
}
use animula.Gc.Collect.Balance.{IsBalanced, booked}
use animula.Gc.Collect.Steps.{Reaches, init, and_then, books, books_inner, Reaches-IsBalanced}
use animula.Gc.Collect.Drain.{IsDrained, sweep-drains}

-- A pair of two integers of the first generation, and the object that has the pair.
abbrev three : Blocks
three = with_block 16 (some (record { gc = 1; body = object OType.imm_int 5 })) (
    with_block 32 (some (record { gc = 1; body = pair_of 16 16 }))
      (with_block 48 (some (record { gc = 1; body = object OType.pair 32 })) (λ q. none)))

abbrev nodes : List ℕ
nodes = 201 ∷ 202 ∷ 203 ∷ 204 ∷ []

abbrev booked_gc : Gc
booked_gc = record (gc_init nodes three) {
  slots = record { oln = 0xdead0001 ∷ 0xdead0001 ∷ 203 ∷ 204 ∷ []; index = 2 };
  obj_pool = (201, 48) ∷ [];
  pair_pool = (202, 32) ∷ [];
}

-- A frame at 20 with one object.
abbrev frame_of : Object → Info
frame_of o = record {
  fp = 20;
  sp = 36;
  stack = write (λ a. 0) 31 (object_bytes o);
  hurt = false;
  closures = λ p. none;
}

abbrev no_frame : Info
no_frame = record { fp = 0; sp = 0; stack = λ a. 0; hurt = false; closures = λ p. none }

abbrev gc_of : Option Block → Run ℕ
gc_of none = fault
gc_of (some b) = ok b.gc

-- The nodes given away, those in the pools, and the generation of the pair after a run.
abbrev left : Run Gc → Run (ℕ × (ℕ × Run ℕ))
left r = do g ← r; ok (g.slots.index, (booked g, gc_of (g.heap 32)))

books_both :
    (do g ← gc_obj_book 48 (gc_init nodes three); gc_inner_obj_book OType.pair 32 g) ≡ ok booked_gc
unfolding gc_obj_book gc_inner_obj_book
books_both = refl

abbrev half : Gc
half = record (gc_init nodes three) {
  slots = record { oln = 0xdead0001 ∷ 202 ∷ 203 ∷ 204 ∷ []; index = 1 };
  obj_pool = (201, 48) ∷ [];
}

booked_gc-Reaches : Reaches nodes three booked_gc
unfolding gc_obj_book gc_inner_obj_book
booked_gc-Reaches =
    and_then (and_then init (books 48 half refl)) (books_inner OType.pair 32 booked_gc refl)

-- The frame has the pair, which becomes older; the object that has it in the pool does not survive.
ages :
    left (gc 9 (frame_of (record { type = OType.pair; gc = 0; value = 32 })) booked_gc)
    ≡ ok (1, (1, ok 2))
unfolding gc build_active_root frame_loop active_root_insert_frame insert_captured
    active_root_inner_insert active_root_insert insert_pair insert_list insert_all insert_value read
    write store_byte collect_all collect_pools collect collect_inner release_all_free_objects sweep
    free_object free_inner_object free_pair free_nodes get_gc_from_node set_gc_to_node
ages = refl

-- With no roots both go back.
collects_both : left (gc 9 no_frame booked_gc) ≡ ok (0, (0, fault))
unfolding gc build_active_root frame_loop active_root_insert_frame insert_captured
    active_root_inner_insert active_root_insert insert_pair insert_list insert_all insert_value read
    write store_byte collect_all collect_pools collect collect_inner release_all_free_objects sweep
    free_object free_inner_object free_pair free_nodes get_gc_from_node set_gc_to_node
collects_both = refl

recycles_some : left (gc_try_to_recycle booked_gc) ≡ ok (2, (2, ok 0))
unfolding gc_try_to_recycle simple_collect release_all_free_objects
recycles_some = refl

-- A bytevector in a frame ends the collection in `PANIC`.
bytevector_in_frame :
    gc 9 (frame_of (record { type = OType.bytevector; gc = 0; value = 64 })) booked_gc ≡ panic
unfolding gc build_active_root frame_loop active_root_insert_frame insert_captured
    active_root_inner_insert active_root_insert insert_pair insert_list insert_all insert_value read
    write store_byte collect_all collect_pools collect collect_inner release_all_free_objects sweep
    free_object free_inner_object free_pair free_nodes get_gc_from_node set_gc_to_node
bytevector_in_frame = refl

-- The list at 32 in a frame has the object at 48, a bytevector with the block at 64.
abbrev list_gc : Gc
list_gc =
    record (gc_init nodes (
      with_block 32 (some (record { gc = 1; body = list_of (48 ∷ []) 0 })) (
        with_block 48 (some (record { gc = 1; body = object OType.bytevector 64 }))
          (with_block 64 (some (record { gc = 1; body = plain })) (λ q. none))))) {
            slots = record { oln = 0xdead0001 ∷ 0xdead0001 ∷ 203 ∷ 204 ∷ []; index = 2 };
            list_pool = (201, 32) ∷ [];
            bytevector_pool = (202, 64) ∷ [];
          }

abbrev gc_at : ℕ → Run Gc → Run (Run ℕ)
gc_at p r = do g ← r; ok (gc_of (g.heap p))

-- The collection keeps the list and the object, and frees the block that the object refers to.
frees_bytevector :
    (gc_at 48 (gc 9 (frame_of (record { type = OType.list; gc = 0; value = 32 })) list_gc)
      ≡ ok (ok 1))
    × (gc_at 64 (gc 9 (frame_of (record { type = OType.list; gc = 0; value = 32 })) list_gc)
        ≡ ok fault)
unfolding gc build_active_root frame_loop active_root_insert_frame insert_captured
    active_root_inner_insert active_root_insert insert_pair insert_list insert_all insert_value read
    write store_byte collect_all collect_pools collect collect_inner release_all_free_objects sweep
    free_object free_inner_object free_pair free_nodes get_gc_from_node set_gc_to_node
frees_bytevector = (refl, refl)

Reaches-IsBalanced_example : IsBalanced booked_gc
Reaches-IsBalanced_example = Reaches-IsBalanced nodes three booked_gc booked_gc-Reaches

sweep-drains_example : (g' : Gc) × ((sweep true booked_gc ≡ ok g') × IsDrained g')
sweep-drains_example = sweep-drains booked_gc refl (
  (record { gc = 1; body = pair_of 16 16 }, refl),
  ((omega arith, tt), ((record { gc = 1; body = object OType.pair 32 }, refl), (tt, tt))),
)
