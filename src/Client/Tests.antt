-- ===== src/Client/Tests.antt =====
-- Words of the command line.
use inter_process_communicat.Base.{◌≡◌, refl, true, [], ◌∷◌}
use inter_process_communicat.Protocol.{Bytes}
use inter_process_communicat.Client.Tokens.{insensitive_equals, is_nonblock_token}

-- "ASYNC".
abbrev capitals : Bytes
capitals = 65 ∷ 83 ∷ 89 ∷ 78 ∷ 67 ∷ []

is_async : is_nonblock_token capitals ≡ true
unfolding is_nonblock_token insensitive_equals
is_async = refl
