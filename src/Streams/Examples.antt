-- ===== src/Streams/Examples.antt =====
-- Two deliveries that are settled in the other order, and a commit.
use rabbitkit.Prelude.{true, false, List, [], ◌∷◌}
use rabbitkit.Streams.Events.{Event, subscribes, delivers, settles, begins_commit, ends_commit}

abbrev events : List Event
events = subscribes 0 5 ∷ delivers 0 ∷ delivers 0 ∷ settles 6 0 false 1 ∷ settles 5 0 true 1 ∷ []

-- The second delivery comes while the first one's offset is saved.
abbrev with_commit : List Event
with_commit =
    subscribes 0 5
    ∷ delivers 0
    ∷ settles 5 0 false 1
    ∷ begins_commit
    ∷ delivers 0
    ∷ ends_commit true 2
    ∷ []
