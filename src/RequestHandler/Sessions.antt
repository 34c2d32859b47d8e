-- ===== src/RequestHandler/Sessions.antt =====
-- proxy/request_handler.go: how HandleTcpRequest and HandleWebSocketRequest end.
use gorouter.Endpoint.{Endpoint}
