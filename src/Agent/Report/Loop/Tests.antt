-- ===== src/Agent/Report/Loop/Tests.antt =====
-- Three rounds of a concrete agent; its KVM device goes away and comes back.
