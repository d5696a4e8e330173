-- ===== src/Examples/Sessions.antt =====
-- The program that drives a client over TCP, against a client that has one message.
use loopix_messaging.Client
