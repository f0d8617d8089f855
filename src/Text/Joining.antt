-- ===== src/Text/Joining.antt =====
-- strings.Join
use Prim.Native.String.{[] as nil, ◌++◌ as str_append}
use walletops.Prelude.{String, List, [], ◌∷◌}

unfoldable pub join : List String → String → String
join [] sep = nil
join (s ∷ []) sep = s
join (s ∷ t ∷ rest) sep = str_append s (str_append sep (join (t ∷ rest) sep))
