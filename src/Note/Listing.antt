-- ===== src/Note/Listing.antt =====
-- src/note.cpp: `items`, the walk over all items of a note into a map. An item's block is a number; the
-- SDK's walk is a parameter: the first item, the one after an item, and the name of an item. The
-- map is an association list; what makes an item_value of a name is a parameter too. The fuel is
-- the number of turns; none is where it runs out.
use dmn_cpp.Base.{
  ℕ, zero, suc, Bool, not, ◌&&◌, List, [], ◌∷◌, ◌++◌, Option, none, some, Bytes, bytes_eq, Result,
  ok, err, ◌>>=◌, if◌then◌else◌,
}
use dmn_cpp.Status.{Codes, Answer, is_not_found, is_error, throw_if_error}
use dmn_cpp.Lmbcs.{Translate, to_string}

-- `NSFItemInfo` without a name, `NSFItemInfoNext` and `NSFItemQuery`.
pub record Walk : Type 0 where
  pub first : Answer
  pub next : ℕ → Answer
  pub name_of : ℕ → Bytes

module _ {Value : Type 0} where
  unfoldable pub lookup : Bytes → List (Bytes × Value) → Option Value
  lookup key [] = none
  lookup key ((k, v) ∷ rest) = if bytes_eq k key then some v else lookup key rest

  unfoldable pub emplace_if :
      Option Value → Bytes × Value → List (Bytes × Value) → List (Bytes × Value)
  emplace_if (some v) entry output = output
  emplace_if none entry output = output ++ entry ∷ []

  -- An entry that is there stays.
  unfoldable pub emplace : Bytes → Value → List (Bytes × Value) → List (Bytes × Value)
  unfolding emplace_if
  emplace key value output = emplace_if (lookup key output) (key, value) output

  module _ (codes : Codes) (os : Translate) (pattern : Bytes → Bool)
      (item_value : Bytes → Result Value) (walk : Walk) where
    -- The body of the loop without its step to the next item.
    unfoldable pub collect : Bytes → List (Bytes × Value) → Result (List (Bytes × Value))
    unfolding emplace
    collect name output =
        let converted = to_string os name in
        if pattern converted
        then (item_value name >>= λ val. ok (emplace converted val output))
        else ok output

    -- The throw behind the step, which lets "not found" pass.
    unfoldable pub stepped : Answer → Result (Unit {0})
    unfolding is_error is_not_found throw_if_error
    stepped answer =
        if is_error answer.status && not (is_not_found codes answer.status)
        then throw_if_error answer.status
        else ok tt

    unfoldable pub walk_items :
        ℕ → Answer → List (Bytes × Value) → Option (Result (List (Bytes × Value)))
    walk_items zero at output = none
    walk_items (suc fuel) at output =
        let after = walk.next at.handle in
        let visited = collect (walk.name_of at.handle) output in
        if is_not_found codes at.status then some (ok output) else elim visited [
          | err e ↦ some (err e)
          | ok grown ↦ elim (stepped after) [
            | err e ↦ some (err e)
            | ok u ↦ walk_items fuel after grown
          ]
        ]

    unfoldable pub items : ℕ → Result ℕ → Option (Result (List (Bytes × Value)))
    items fuel hdl = elim (hdl >>= λ h. throw_if_error walk.first.status) [
      | err e ↦ some (err e)
      | ok u ↦ walk_items fuel walk.first []
    ]
