-- ===== src/Model/Filter.antt =====
-- host/pymodel/book.py, `SymbolFilter`: from the stock locate to the symbol.
use fpga_algotrading.Prelude.{ℕ, Option, none, some, List, [], ◌∷◌, ltb, leb, if◌then◌else◌}
use fpga_algotrading.Dict.{Dict, lookup, insert}
use fpga_algotrading.Contract.{n_active}

-- `subscribe`; `none` is the `ValueError` of a symbol out of range.
unfoldable pub subscribe : Dict ℕ → ℕ → ℕ → Option (Dict ℕ)
subscribe filter locate sym = if ltb sym n_active then some (insert locate sym filter) else none

abbrev pub sym_for : Dict ℕ → ℕ → Option ℕ
sym_for filter locate = lookup locate filter

abbrev pub insert_sorted : ℕ → List ℕ → List ℕ
insert_sorted k [] = k ∷ []
insert_sorted k (j ∷ js) = let rest = insert_sorted k js in if leb k j then k ∷ j ∷ js else j ∷ rest

abbrev pub sorted : List ℕ → List ℕ
sorted [] = []
sorted (k ∷ ks) = insert_sorted k (sorted ks)

abbrev pub keys_of : Dict ℕ → List ℕ
keys_of [] = []
keys_of (e ∷ d) = e.0 ∷ keys_of d

-- `subscribed_locates`
abbrev pub subscribed_locates : Dict ℕ → List ℕ
subscribed_locates filter = sorted (keys_of filter)
