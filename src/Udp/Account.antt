-- ===== src/Udp/Account.antt =====
-- Every payload is accounted for, whatever the transport does.
