-- ===== src/Socket/Tests.antt =====
-- A socket at concrete answers of the kernel.
use agent_team_test.Prelude.{◌≡◌, refl, true, false, none, some, [], ◌∷◌, ◌++◌}
use agent_team_test.Socket.{Address, Kernel, init, initialize, destroy}
use agent_team_test.Socket.Lifetime.{held, initializes, fresh, Reach-destroyed}

abbrev own : Address
own = record { addr = 0x7F000001; port = 5000 }

abbrev peer : Address
peer = record { addr = 0x7F000001; port = 5001 }

abbrev refuses_nothing : Kernel
refuses_nothing = record { socket = some 3; bind = λ fd a. true; connect = λ fd a. true }

-- A socket that could not be bound.
abbrev refuses_bind : Kernel
refuses_bind = record refuses_nothing { bind = λ fd a. false }

Reach-destroyed_example :
    let node = initialize refuses_bind own peer init in
    (3 ∷ [] ≡ held node.sockfd ++ [])
    × ((destroy node).0 ++ [] ≡ 3 ∷ [])
    × ((destroy node).1.sockfd ≡ none)
Reach-destroyed_example = Reach-destroyed (initializes refuses_bind own peer refl fresh)
