-- ===== src/Tests/Prologue.antt =====
-- The theorems on the prologue of the servers, applied to machines and inputs.
use cloning_apps.Base.{ℤ, ◌≡◌, ◌==◌, Bool, refl, true, some, none, Option, [], pos, if◌then◌else◌}
use cloning_apps.System.{Env, State, Run, ok, fork, inet_aton, minios}
use cloning_apps.System.Ends.{Ends}
use cloning_apps.Globals.{initial_globals}
use cloning_apps.Net.Sockets.{SocketCalls}
use cloning_apps.Net.{mysocket_open, mysocket_fini}
use cloning_apps.Net.Os.{os_net_ip_get_gw}
use cloning_apps.Net.Datagram.{udp_client_send, udp_client_recv}
use cloning_apps.Clone.{os_clone, os_get_self_id}
use cloning_apps.Time.{send_time, time_to_send, send_loop}
use cloning_apps.Prologue.{
  server_prologue, open_and_report, clone_prologue, report_clone, fork_prologue, fork_loop,
  fork_round, report_fork, after_round, reopen_socket,
}
use cloning_apps.Prologue.Fork.{forks}
use cloning_apps.Prologue.Sockets.{Limit}
use cloning_apps.Prologue.Server.{OpenAfter, server_prologue-OpenAfter}
use cloning_apps.Tests.{nothing, calm, start}

-- The second fork returns 0: what follows is what the second child does.
abbrev second_child : Env
second_child = record calm {
  answer = λ t made. elim made [
    | fork ↦ record nothing { value = if forks t == 1 then pos 0 else pos 7 }
    | inet_aton _ ↦ record nothing { value = pos 1 }
    | other ↦ calm.answer t other
  ];
}

abbrev reporting : State
reporting = record start {
  globals = record initial_globals { do_send_time = true; do_fork = true; children_num = pos 3 };
}

-- The run of that child: it returns 0 and is told that it is a child.
abbrev result_of : Run (ℤ × Option Bool) → Option (ℤ × Option Bool)
result_of (ok r s) = some r
result_of _ = none

second_child_result :
    result_of (server_prologue ⦃env = second_child⦄ 5 reporting) ≡ some (pos 0, some true)
unfolding server_prologue open_and_report mysocket_open send_time time_to_send os_net_ip_get_gw
    send_loop udp_client_send udp_client_recv fork_prologue fork_loop fork_round report_fork
    after_round reopen_socket mysocket_fini
second_child_result = refl

-- Under Mini-OS, where a clone succeeds: what follows is what the clone does.
abbrev cloned : Env
cloned = record calm { platform = minios }

cloned_calls : SocketCalls cloned
cloned_calls = record { reuse = λ t d. refl; bind_code = λ t d a. refl }

abbrev cloning : State
cloning = record start {
  globals = record initial_globals { do_send_time = true; do_clone = true; children_num = pos 3 };
}

cloned_result : result_of (server_prologue ⦃env = cloned⦄ 5 cloning) ≡ some (pos 0, some true)
unfolding server_prologue open_and_report mysocket_open send_time time_to_send os_net_ip_get_gw
    send_loop udp_client_send udp_client_recv clone_prologue report_clone os_clone os_get_self_id
    mysocket_fini
cloned_result = refl

server_prologue-OpenAfter_example :
    Ends (OpenAfter [] true) (Limit []) (server_prologue ⦃env = cloned⦄ 5 cloning)
server_prologue-OpenAfter_example =
    server_prologue-OpenAfter ⦃env = cloned⦄ cloned_calls 5 cloning refl refl
