-- ===== src/Memory/Service.antt =====
-- src/memory.cpp, `step_port`: when a request in service is answered, and by what.
