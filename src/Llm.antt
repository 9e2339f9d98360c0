-- ===== src/Llm.antt =====
-- The language models behind the reasoner and the risk classifier: src/agent/diagnosis.py,
-- src/risk/classifier.py and src/llm/ollama_client.py.
pub mod Chat
pub mod Reasoners
pub mod Classifiers
pub mod Backends
