-- ===== src/Store/Tests.antt =====
-- The handle store at concrete inputs: object 2 lives at the address that object 1 had.
use dmn_cpp.Base.{ℕ, ◌+◌, ◌≡◌, refl, Bool, true, false, [], ◌∷◌, ok, ◌==◌, ◌&&◌}
use dmn_cpp.Status.{Answer, is_not_found, throw_if_error}
use dmn_cpp.Status.Samples.{codes}
use dmn_cpp.Store.{
  Shared, Store, find, get_handle, lookup, open_impl, remove_stale, insert, get_entry, require,
}
use dmn_cpp.Store.Caching.{get_handle_cached}
use dmn_cpp.Store.Accounting.{total, opens, opened_by, get_handle-total}

abbrev alive : ℕ → Bool
alive o = o == 2

abbrev second_object : Shared
second_object = record { address = 16; object = 2 }

abbrev with_stale : Store
with_stale = record { entries = record { address = 16; object = 1; handle = 5 } ∷ []; closed = [] }

abbrev with_live : Store
with_live = record {
  entries = record { address = 16; object = 2; handle = 6 } ∷ [];
  closed = 5 ∷ [];
}

abbrev opened : Answer
opened = record { status = 0; handle = 6 }

reuse_run : get_handle alive codes opened second_object with_stale ≡ (ok 6, with_live, true)
unfolding get_handle find open_impl remove_stale insert lookup require is_not_found throw_if_error
    get_entry
reuse_run = refl

get_handle_cached_example :
    let after = (get_handle alive codes opened second_object with_stale).1 in
    get_handle alive codes (record { status = 0x404; handle = 0 }) second_object after
    ≡ (ok 6, after, false)
unfolding get_handle find open_impl remove_stale insert lookup require is_not_found throw_if_error
    get_entry
get_handle_cached_example =
    get_handle_cached alive codes opened (record { status = 0x404; handle = 0 }) second_object 6
      with_stale refl (refl, tt) refl

get_handle-total_example :
    let (result, after, called) = get_handle alive codes opened second_object with_stale in
    total 6 after ≡ total 6 with_stale + opened_by 6 (called && opens codes opened) opened
get_handle-total_example = get_handle-total alive codes 6 opened second_object with_stale
