-- ===== src/Daemon/Guards.antt =====
-- A request that is not authorized (src/main.rs: `handle_command`).
use mitos_session.Base.{ℕ, ◌<◌, ◌≡◌, refl, inl, inr, some, [], ◌∷◌, ◌++◌, arith}
use mitos_session.Base.Map.{lookup, id_key}
use mitos_session.Errors.{SessionError, to_string, Result-cases}
use mitos_session.Policy.{authorize}
use mitos_session.Policy.Authorize.{Allowed, authorize_iff}
use mitos_session.Ipc.{Response, Packet, send, send_response, ManagerCommand}
use mitos_session.Daemon.State.{Host, Daemon}
use mitos_session.Daemon.Dispatch.{handle_command}

-- A request that the peer may not make has no effect: a user that is not root and that the rule for
-- the request does not allow changes nothing but its own outbox, which gets one error reply if the
-- connection is live, and nothing is sent to anyone else.
pub handle_command-refused :
    (host : Host) (cmd : ManagerCommand) (d : Daemon) (box : ℕ)
    → 0 < cmd.peer.uid
    → (Allowed host.accounts cmd.peer cmd.conn_id cmd.request d.sessions d.elevation → ⊥)
    → lookup cmd.conn_id d.registry.outboxes ≡ some box
    → (e : SessionError) × (handle_command host cmd d ≡ record d {
      registry = record {
        outboxes = d.registry.outboxes;
        sent = d.registry.sent ++ ((box, Packet.response (Response.failed (to_string e))) ∷ []);
      };
    })
unfolding handle_command send_response send
handle_command-refused host cmd d box user refused live =
    elim (Result-cases
      (authorize host.accounts cmd.peer cmd.conn_id cmd.request d.sessions d.elevation)) [
        | inr (x, e) ↦ (x, rw (e, live, handle_command, send_response, send) refl)
        | inl (_, e) ↦
            absurd
              (elim ((authorize_iff host.accounts cmd.peer cmd.conn_id cmd.request d.sessions
                  d.elevation).0
                e) [ inl root ↦ omega arith | inr a ↦ refused a ])
      ]
