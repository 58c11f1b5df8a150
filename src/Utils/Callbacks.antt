-- ===== src/Utils/Callbacks.antt =====
-- `MpPool` (utils/include/MpPool.h): the pool of the callbacks of one kind, as their handles.
use end_to_end_smkex.Base.{ℕ, List, [], ◌∷◌, ◌++◌, Option, none, some, ◌==◌, if◌then◌else◌}

-- A callback's handle; `none` is a null pointer.
unfoldable pub add_pool_data : Option ℕ → List ℕ → List ℕ
add_pool_data none pool = pool
add_pool_data (some cb) pool = pool ++ cb ∷ []

unfoldable pub erase_first : ℕ → List ℕ → List ℕ
erase_first pd [] = []
erase_first pd (cb ∷ cbs) = let rest = erase_first pd cbs in if cb == pd then cbs else cb ∷ rest

unfoldable pub rm_pool_data : Option ℕ → List ℕ → List ℕ
rm_pool_data none pool = pool
rm_pool_data (some pd) pool = erase_first pd pool
