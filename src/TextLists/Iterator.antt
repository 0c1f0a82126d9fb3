-- ===== src/TextLists/Iterator.antt =====
-- `list::const_iterator` of include/dmn/list.hpp, and the loop from `begin` to `end` that it is for. The iterators
-- of a loop are of one list.
pub mod Visited
use dmn_cpp.Base.{
  ℕ, zero, suc, ◌+◌, ◌%◌, ◌^◌, Bool, List, [], ◌∷◌, Bytes, ◌==◌, if◌then◌else◌, Result, ok, err,
  ◌>>=◌,
}
use dmn_cpp.Lmbcs.{Translate}
use dmn_cpp.TextLists.{Native, size, at}

pub record ConstIterator (L : Type 0) : Type 0 where
  pub owner : L
  pub index : ℕ

module _ {L : Type 0} where
  unfoldable pub begin : L → ConstIterator L
  begin l = record { owner = l; index = 0 }

  unfoldable pub end : Native L → L → ConstIterator L
  end native l = record { owner = l; index = size native l }

  unfoldable pub advance : ConstIterator L → ConstIterator L
  advance it = record it { index = (it.index + 1) % 2 ^ 64 }

  unfoldable pub equals : ConstIterator L → ConstIterator L → Bool
  equals it other = it.index == other.index

  module _ (native : Native L) (os : Translate) where
    unfoldable pub deref : ConstIterator L → Result Bytes
    deref it = at native os it.index it.owner

    -- The loop, on fuel: a theorem says that the number of entries is enough.
    unfoldable pub visit : ℕ → ConstIterator L → ConstIterator L → Result (List Bytes)
    unfolding deref advance equals
    visit zero it stop = ok []
    visit (suc fuel) it stop =
        if equals it stop
        then ok []
        else do entry ← deref it; rest ← visit fuel (advance it) stop; ok (entry ∷ rest)
