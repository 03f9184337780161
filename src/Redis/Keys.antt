-- ===== src/Redis/Keys.antt =====
-- KeyBuilder of src/libs/redis/src/utils/key-builder.util.ts.
use Prim.Native.String.{String, ◌++◌}
use enix_backend.Base.{Option, none, some, List, [], ◌∷◌, map}

-- `parts.filter(p => p !== undefined && p !== null)`
abbrev given : List (Option String) → List String
given [] = []
given (none ∷ parts) = given parts
given (some part ∷ parts) = part ∷ given parts

-- `parts.join(':')`
abbrev joined : List String → String
joined [] = ""
joined (part ∷ []) = part
joined (part ∷ rest) = part ++ (":" ++ joined rest)

abbrev pub build : String → List (Option String) → String
build prefix parts = prefix ++ (":" ++ joined (given parts))

abbrev pub lock : String → String → Option String → String
lock prefix resource identifier = build prefix (some "lock" ∷ some resource ∷ identifier ∷ [])

abbrev pub rate_limit : String → String → String → String
rate_limit prefix identifier action =
    build prefix (some "ratelimit" ∷ some identifier ∷ some action ∷ [])

abbrev pub cache : String → List String → String
cache prefix parts = build prefix (some "cache" ∷ map some parts)

abbrev pub tag : String → String → String
tag prefix name = build prefix (some "tag" ∷ some name ∷ [])

-- the key of the tags of a cached key
abbrev pub tags_of : String → String → String
tags_of prefix key = build prefix (some "cache:tags" ∷ some key ∷ [])
