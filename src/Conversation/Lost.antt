-- ===== src/Conversation/Lost.antt =====
-- A submission whose row could not be written.
use modeltap.Conversation.State.{Conversation}
use modeltap.Conversation.Live.{Live}
