-- ===== src/Streaming/Tests.antt =====
-- Forwarding a port.
use luna_for_mac.Base.{none, some}
use luna_for_mac.Streaming.{failure, Forward, copied, copied_too, port_forward}
use luna_for_mac.Streaming.Closes.{IsClosedUp, port_forward-IsClosedUp}

-- The client's direction ends first, without an error, and the other one fails within the second.
abbrev forwarded : Forward
forwarded = record {
  dial_error = none;
  first = some (copied none);
  second = some (copied_too (some (failure "broken pipe")));
}

port_forward-IsClosedUp_example : IsClosedUp (port_forward 8080 forwarded)
port_forward-IsClosedUp_example = port_forward-IsClosedUp 8080 forwarded
